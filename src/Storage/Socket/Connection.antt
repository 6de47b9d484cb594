-- ===== src/Storage/Socket/Connection.antt =====
-- The two ends of a connection share buffers: what one writes the other reads.
use lensor_os.Prelude.{
  ℕ, ◌+◌, ◌≡◌, ◌≤◌, ◌<◌, refl, ap, some, List, [], ◌∷◌, ◌++◌, arith, zero, suc, leb, tests,
  length-take, length-append, length, take, min, ◌∙◌, sym, Bool-cases, inl, inr,
}
use lensor_os.Process.Table.{Table}
use lensor_os.Storage.Pipe.{moved}
use lensor_os.Storage.Fifo
use lensor_os.Storage.Fifo.{FifoBuffer}
use lensor_os.Storage.Fifo.Laws.{IsValid, contents, read_data, write_fits}
use lensor_os.Storage.Socket.{
  tx_size, rx_size, SocketBuffers, SocketData, ClientServer, client, server, SocketDriver, Result,
  read_side, write_side, buffers_of, read, write, store_buffers,
}

-- The socket at the address is there, of that side, with those buffers.
pub record IsEnd (d : SocketDriver) (sock : ℕ) (side : ClientServer) (a : ℕ) (b : SocketBuffers)
    : Type 0 where
  pub entry : SocketData
  pub there : d.sockets sock ≡ some entry
  pub role : entry.client_server ≡ side
  pub points : entry.buffers ≡ some a
  pub stored : d.buffers a ≡ some b

-- The buffer into which a side writes, with its size.
abbrev pub outgoing : ClientServer → SocketBuffers → FifoBuffer
outgoing client b = b.rx
outgoing server b = b.tx

abbrev pub capacity : ClientServer → ℕ
capacity client = rx_size
capacity server = tx_size

abbrev pub peer : ClientServer → ClientServer
peer client = server
peer server = client

write_equation :
    (d : SocketDriver) (sock : ℕ) (side : ClientServer) (a : ℕ) (b : SocketBuffers) (pid n : ℕ)
    (buffer : List ℕ) (t : Table)
    → IsEnd d sock side a b
    → write sock pid n buffer d t ≡ some (write_side side a pid n buffer b d t)
unfolding write buffers_of
write_equation d sock side a b pid n buffer t e =
    ground (arith, e.there, e.role, e.points, e.stored)

read_equation :
    (d : SocketDriver) (sock : ℕ) (side : ClientServer) (a : ℕ) (b : SocketBuffers) (pid n : ℕ)
    (t : Table)
    → IsEnd d sock side a b
    → read sock pid n d t ≡ some (read_side side a pid n b d t)
unfolding read buffers_of
read_equation d sock side a b pid n t e = ground (arith, e.there, e.role, e.points, e.stored)

-- An end stays one when its buffers change.
IsEnd-store :
    (d : SocketDriver) (sock : ℕ) (side : ClientServer) (a : ℕ) (b b' : SocketBuffers)
    → IsEnd d sock side a b
    → IsEnd (store_buffers a b' d) sock side a b'
IsEnd-store d sock side a b b' e = record {
  entry = e.entry;
  there = e.there;
  role = e.role;
  points = e.points;
  stored = ground arith;
}

-- What the peer of a writer reads next: the bytes that were there, then those written.
pub record Delivered (d : SocketDriver) (y m pid : ℕ) (expected : List ℕ) (n : ℕ) (r : Result)
    : Type 0 where
  pub accepted : r.outcome ≡ moved n
  pub result : Result
  pub answered : read y pid m r.driver r.table ≡ some result
  pub bytes : result.out ≡ take m expected

take_all : (m : ℕ) (xs : List ℕ) → length xs ≤ m → take m xs ≡ xs
take_all zero [] h = refl
take_all zero (x ∷ xs) h = absurd (omega arith)
take_all (suc m) [] h = refl
take_all (suc m) (x ∷ xs) h = ap (λ r. x ∷ r) (take_all m xs (omega arith))

take-min : (m k : ℕ) (xs : List ℕ) → take (min m k) (take k xs) ≡ take m (take k xs)
take-min m k xs = elim (Bool-cases (leb m k)) [
  | inl e ↦ ap (λ i. take i (take k xs)) (omega (tests, e))
  | inr e ↦
      let short : length (take k xs) ≤ k = omega (arith, length-take k xs) in
      let e' : min m k ≡ k = ground arith in
      ap (λ i. take i (take k xs)) e'
      ∙ take_all k (take k xs) short
      ∙ sym (take_all m (take k xs) (ground arith))
]

offset_positive :
    (f : FifoBuffer) (xs buffer : List ℕ) (n : ℕ)
    → contents f ≡ xs ++ take n buffer
    → 0 < n
    → n ≤ length buffer
    → 0 < f.offset
offset_positive f xs buffer n e p l = omega (
  arith,
  ap length e,
  length-take f.offset f.bytes,
  length-append xs (take n buffer),
  length-take n buffer,
)

read_bytes :
    (size pid m : ℕ) (f : FifoBuffer) (t : Table)
    → IsValid size f
    → 0 < f.offset
    → (Fifo.read pid m f t).out ≡ take m (contents f)
read_bytes size pid m f t v h =
    let (_, out, _, _, _) = read_data size pid m f t v h in out ∙ take-min m f.offset f.bytes

delivered_client :
    (d : SocketDriver) (y a : ℕ) (b : SocketBuffers) (pid pid' n m : ℕ) (buffer : List ℕ)
    (t : Table)
    → IsEnd d y server a b
    → IsValid rx_size b.rx
    → 0 < n
    → n ≤ length buffer
    → b.rx.offset + n ≤ rx_size
    → Delivered d y m pid'
        (contents b.rx ++ take n buffer)
        n
        (write_side client a pid n buffer b d t)
unfolding write_side read_side
delivered_client d y a b pid pid' n m buffer t e v p l h =
    let (outcome, _, holds, _, valid) = write_fits rx_size pid n b.rx t v buffer l h in
    let r = Fifo.write rx_size pid n buffer b.rx t in
    let b' : SocketBuffers = record b { rx = r.fifo } in
    record {
      accepted = outcome;
      result = read_side server a pid' m b' (store_buffers a b' d) r.table;
      answered =
          read_equation (store_buffers a b' d) y server a b' pid' m r.table
            (IsEnd-store d y server a b b' e);
      bytes =
          read_bytes rx_size pid' m r.fifo r.table valid
            (offset_positive r.fifo (contents b.rx) buffer n holds p l)
          ∙ ap (take m) holds;
    }

delivered_server :
    (d : SocketDriver) (y a : ℕ) (b : SocketBuffers) (pid pid' n m : ℕ) (buffer : List ℕ)
    (t : Table)
    → IsEnd d y client a b
    → IsValid tx_size b.tx
    → 0 < n
    → n ≤ length buffer
    → b.tx.offset + n ≤ tx_size
    → Delivered d y m pid'
        (contents b.tx ++ take n buffer)
        n
        (write_side server a pid n buffer b d t)
unfolding write_side read_side
delivered_server d y a b pid pid' n m buffer t e v p l h =
    let (outcome, _, holds, _, valid) = write_fits tx_size pid n b.tx t v buffer l h in
    let r = Fifo.write tx_size pid n buffer b.tx t in
    let b' : SocketBuffers = record b { tx = r.fifo } in
    record {
      accepted = outcome;
      result = read_side client a pid' m b' (store_buffers a b' d) r.table;
      answered =
          read_equation (store_buffers a b' d) y client a b' pid' m r.table
            (IsEnd-store d y client a b b' e);
      bytes =
          read_bytes tx_size pid' m r.fifo r.table valid
            (offset_positive r.fifo (contents b.tx) buffer n holds p l)
          ∙ ap (take m) holds;
    }

delivered :
    (side : ClientServer) (d : SocketDriver) (y a : ℕ) (b : SocketBuffers) (pid pid' n m : ℕ)
    (buffer : List ℕ) (t : Table)
    → IsEnd d y (peer side) a b
    → IsValid (capacity side) (outgoing side b)
    → 0 < n
    → n ≤ length buffer
    → (outgoing side b).offset + n ≤ capacity side
    → Delivered d y m pid'
        (contents (outgoing side b) ++ take n buffer)
        n
        (write_side side a pid n buffer b d t)
delivered client d y a b pid pid' n m buffer t = delivered_client d y a b pid pid' n m buffer t
delivered server d y a b pid pid' n m buffer t = delivered_server d y a b pid pid' n m buffer t

-- Of two sockets with the same buffers and opposite sides, what either writes, as long as it is some
-- bytes for which the buffer has room, is what the other reads next, after the bytes that were
-- there already.
pub write-read :
    (side : ClientServer) (d : SocketDriver) (x y a : ℕ) (b : SocketBuffers) (pid pid' n m : ℕ)
    (buffer : List ℕ) (t : Table)
    → IsEnd d x side a b
    → IsEnd d y (peer side) a b
    → IsValid (capacity side) (outgoing side b)
    → 0 < n
    → n ≤ length buffer
    → (outgoing side b).offset + n ≤ capacity side
    → (r : Result) × (write x pid n buffer d t ≡ some r)
      × Delivered d y m pid' (contents (outgoing side b) ++ take n buffer) n r
write-read side d x y a b pid pid' n m buffer t e e' v p l h = (
  write_side side a pid n buffer b d t,
  write_equation d x side a b pid n buffer t e,
  delivered side d y a b pid pid' n m buffer t e' v p l h,
)
