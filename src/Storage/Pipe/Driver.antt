-- ===== src/Storage/Pipe/Driver.antt =====
-- The life of a pipe buffer: laid, closed at both ends, free, and laid again.
use lensor_os.Prelude.{ℕ, ◌≡◌, ◌≢◌, refl, Bool, true, false, List, [], ◌∷◌, arith, if◌then◌else◌}
use lensor_os.Event.Queue.{contains}
use lensor_os.Process.Table.{Table}
use lensor_os.Storage.Pipe.{
  PipeBuffer, clear_buffer, EndType, read_end, write_end, PipeDriver, store, close_end, release,
  lay_from, lay_pipe,
}

-- The free buffers are clear, and none is listed twice.
abbrev pub Distinct : List ℕ → Type 0
Distinct [] = Unit
Distinct (a ∷ rest) = (contains rest a ≡ false) × Distinct rest

pub record IsSound (d : PipeDriver) : Type 0 where
  pub clear : (a : ℕ) → contains d.free_buffers a ≡ true → d.buffers a ≡ clear_buffer
  pub distinct : Distinct d.free_buffers

module _ (d : PipeDriver) (s : IsSound d) where
  -- A change of a buffer that is in use.
  store-IsSound :
      (a : ℕ) (p : PipeBuffer) → contains d.free_buffers a ≡ false → IsSound (store a p d)
  store-IsSound a p used = record {
    clear = λ b f. ground (arith, s.clear b);
    distinct = s.distinct;
  }

  release-IsSound : (a : ℕ) → IsSound (release a d)
  unfolding release
  release-IsSound a = record {
    clear = λ b. ground (arith, s.clear b);
    distinct = ground (arith, s.distinct);
  }

IsSound-if :
    (b : Bool) (x y : PipeDriver × Table)
    → IsSound x.0
    → IsSound y.0
    → IsSound (if b then x else y).0
IsSound-if true x y h k = h
IsSound-if false x y h k = k

-- Closing an end of a buffer that is in use keeps the driver sound.
pub close_end-IsSound :
    (e : EndType) (a : ℕ) (d : PipeDriver) (t : Table)
    → IsSound d
    → contains d.free_buffers a ≡ false
    → IsSound (close_end e a d t).0
unfolding close_end
close_end-IsSound read_end a d t s used =
    IsSound-if (d.buffers a).read_closed _ _ s
      (release-IsSound (store a _ d) (store-IsSound d s a _ used) a)
close_end-IsSound write_end a d t s used =
    IsSound-if (d.buffers a).write_closed _ _ s
      (release-IsSound (store a _ d) (store-IsSound d s a _ used) a)

-- The other end.
abbrev pub other : EndType → EndType
other read_end = write_end
other write_end = read_end

-- When both ends of a buffer in use are closed, in either order, its buffer is free, and cleared.
pub close_both :
    (e : EndType) (a : ℕ) (d : PipeDriver) (t t' : Table)
    → contains d.free_buffers a ≡ false
    → (d.buffers a).read_closed ≡ false
    → (d.buffers a).write_closed ≡ false
    → let d' = (close_end (other e) a (close_end e a d t).0 t').0 in
      (d'.free_buffers ≡ a ∷ d.free_buffers) × (d'.buffers a ≡ clear_buffer)
unfolding close_end release
close_both read_end a d t t' used r w = ground arith
close_both write_end a d t t' used r w = ground arith

-- What laying a pipe at buffer `a` promises.
pub record Laid (d : PipeDriver) (a : ℕ) (d' : PipeDriver) : Type 0 where
  pub clear : d'.buffers a ≡ clear_buffer
  pub used : contains d'.free_buffers a ≡ false
  pub others : (b : ℕ) → b ≢ a → d'.buffers b ≡ d.buffers b
  pub sound : IsSound d'

abbrev driver : (ℕ → PipeBuffer) → List ℕ → ℕ → PipeDriver
driver buffers free counter = record { buffers = buffers; free_buffers = free; counter = counter }

lay_from-Laid :
    (free : List ℕ) (buffers : ℕ → PipeBuffer) (c c' fresh : ℕ)
    → let d = driver buffers free c in
      IsSound d
      → contains free fresh ≡ false
      → let (a, d') = lay_from free fresh d in Laid d a (record d' { counter = c' })
unfolding lay_from
lay_from-Laid [] buffers c c' fresh s new = record {
  clear = ground arith;
  used = refl;
  others = λ b n. ground arith;
  sound = record { clear = λ b f. ground arith; distinct = tt };
}
lay_from-Laid (a ∷ rest) buffers c c' fresh s new = record {
  clear = s.clear a (ground arith);
  used = s.distinct.0;
  others = λ b n. refl;
  sound = record { clear = λ b f. s.clear b (ground arith); distinct = s.distinct.1 };
}

-- A pipe that is laid has its read end and its write end on one buffer, which is empty and open at
-- both ends, and is in use from then on; no other buffer changes.
pub lay_pipe_lem :
    (fresh : ℕ) (d : PipeDriver)
    → IsSound d
    → contains d.free_buffers fresh ≡ false
    → let (r, w, d') = lay_pipe fresh d in
      (r.end ≡ read_end) × (w.end ≡ write_end) × (r.buffer ≡ w.buffer) × Laid d r.buffer d'
unfolding lay_pipe
lay_pipe_lem fresh d s new =
    (refl, refl, refl, lay_from-Laid d.free_buffers d.buffers d.counter _ fresh s new)
