-- ===== src/Storage/Fifo/Laws.antt =====
-- A socket's buffer is a first-in first-out stream too, as long as no write is longer than the
-- memory that a process can have; a longer one passes the guard.
use lensor_os.Prelude.{
  ℕ, ◌+◌, ◌≡◌, ◌∙◌, refl, sym, ap, ◌≤◌, ◌<◌, false, List, [], ◌∷◌, ◌++◌, arith, ltb, if◌then◌else◌,
  ◌==◌, min, length, take, drop, length-take,
}
use lensor_os.Prelude.Words.{u64_mod, add64, minus_two}
use lensor_os.Process.Table.{Table, wake_all}
use lensor_os.Storage.Bytes.{
  overwrite, take-shift_down, length-shift_down, take-overwrite, length-overwrite, take-take,
}
use lensor_os.Storage.Pipe.{moved, retry}
use lensor_os.Storage.Fifo.{FifoBuffer, write, read}

module _ (size : ℕ) where
  pub record IsValid (f : FifoBuffer) : Type 0 where
    pub sized : length f.bytes ≡ size
    pub within : f.offset ≤ size
    pub small : size < u64_mod

abbrev pub contents : FifoBuffer → List ℕ
contents f = take f.offset f.bytes

module _ (size pid n : ℕ) (f : FifoBuffer) (t : Table) (v : IsValid size f) where
  -- A read of a buffer that holds something gives the oldest bytes, as many as are asked for and
  -- there, leaves the rest, and wakes every process that waits for a read.
  pub read_data :
      0 < f.offset
      → let r = read pid n f t in
        (r.outcome ≡ moved (min n f.offset))
        × (r.out ≡ take (min n f.offset) (contents f))
        × (contents r.fifo ≡ drop (min n f.offset) (contents f))
        × (r.table ≡ wake_all f.waiting_until_read minus_two t)
        × IsValid size r.fifo
  unfolding read
  read_data h =
      let count = min n f.offset in
      let e : (if ltb f.offset n then f.offset else n) ≡ count = ground arith in
      let holds : (f.offset == 0) ≡ false = ground arith in
      rw (holds, e)
        (
          refl,
          sym (take-take count f.offset f.bytes (omega arith)),
          take-shift_down count f.offset f.bytes (omega arith) (omega (arith, v.sized, v.within)),
          refl,
          record {
            sized = length-shift_down count f.bytes (omega (arith, v.sized, v.within)) ∙ v.sized;
            within = omega (arith, v.within);
            small = v.small;
          },
        )

  -- A write that fits appends its bytes and wakes every process that waits for a write.
  pub write_fits :
      (buffer : List ℕ)
      → n ≤ length buffer
      → f.offset + n ≤ size
      → let r = write size pid n buffer f t in
        (r.outcome ≡ moved n)
        × (r.out ≡ [])
        × (contents r.fifo ≡ contents f ++ take n buffer)
        × (r.table ≡ wake_all f.waiting_until_write minus_two t)
        × IsValid size r.fifo
  unfolding write
  write_fits buffer l h =
      let sum : add64 f.offset n ≡ f.offset + n = omega (arith, v.small) in
      let room : ltb size (f.offset + n) ≡ false = ground arith in
      let count : length (take n buffer) ≡ n = omega (arith, length-take n buffer) in
      let fits : f.offset + length (take n buffer) ≤ length f.bytes =
        omega (arith, count, v.sized) in
      rw (sum, room)
        (
          refl,
          refl,
          ap (λ k. take (f.offset + k) (overwrite f.bytes f.offset (take n buffer))) (sym count)
              ∙ take-overwrite f.offset f.bytes (take n buffer) fits,
          refl,
          record {
            sized = length-overwrite f.offset f.bytes (take n buffer) fits ∙ v.sized;
            within = h;
            small = v.small;
          },
        )

  -- A write that does not fit, and whose count does not wrap the sum, changes no byte: the process
  -- is put at the end of those that wait for a read.
  pub write_full :
      (buffer : List ℕ)
      → size < f.offset + n
      → f.offset + n < u64_mod
      → write size pid n buffer f t ≡ record {
        outcome = retry;
        out = [];
        fifo = record f { waiting_until_read = f.waiting_until_read ++ (pid ∷ []) };
        table = t;
      }
  unfolding write
  write_full buffer h w = ground arith

  pub read_empty :
      f.offset ≡ 0
      → read pid n f t ≡ record {
        outcome = retry;
        out = [];
        fifo = record f { waiting_until_write = f.waiting_until_write ++ (pid ∷ []) };
        table = t;
      }
  unfolding read
  read_empty h = ground arith

  -- A count that wraps the sum passes the guard: the call reports more bytes than the buffer has
  -- room for, and the offset moves back.
  pub write_wraps :
      (buffer : List ℕ)
      → 0 < f.offset
      → n < u64_mod
      → u64_mod ≤ f.offset + n
      → let r = write size pid n buffer f t in
        (r.outcome ≡ moved n) × (size < n + f.offset) × (r.fifo.offset < f.offset)
  unfolding write
  write_wraps buffer p b w = ground (arith, v.small, v.within)
