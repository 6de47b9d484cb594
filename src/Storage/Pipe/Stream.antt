-- ===== src/Storage/Pipe/Stream.antt =====
-- A pipe is a first-in first-out stream: what has been read, followed by what the pipe holds, is what
-- it held, followed by what has been written.
use lensor_os.Prelude.{
  ℕ, ◌+◌, ◌≡◌, ◌∙◌, refl, sym, ap, ap₂, ◌≤◌, ◌<◌, Bool, true, false, List, [], ◌∷◌, ◌++◌, arith,
  ltb, if◌then◌else◌, ◌==◌, min, Bool-cases, inl, inr, length, take, drop, length-take,
  take-append-drop, append-nil, length-replicate,
}
use lensor_os.Prelude.Words.{minus_two}
use lensor_os.Process.Table.{Table, wake_all}
use lensor_os.Storage.Bytes.{
  overwrite, take-shift_down, length-shift_down, take-overwrite, length-overwrite, take-take,
}
use lensor_os.Storage.Conserving.{Buffer, run, run-conserves}
use lensor_os.Storage.Pipe.{
  PipeBuffer, pipe_bufsz, clear_buffer, Outcome, moved, failed, retry, Result, read_buffer,
  write_buffer,
}

pub record IsValid (p : PipeBuffer) : Type 0 where
  pub sized : length p.bytes ≡ pipe_bufsz
  pub within : p.offset ≤ pipe_bufsz

-- The bytes that the pipe holds, oldest first.
abbrev pub contents : PipeBuffer → List ℕ
contents p = take p.offset p.bytes

pub length-contents : (p : PipeBuffer) → IsValid p → length (contents p) ≡ p.offset
length-contents p v = omega (arith, v.sized, v.within, length-take p.offset p.bytes)

pub clear_buffer-IsValid : IsValid clear_buffer
clear_buffer-IsValid = record { sized = length-replicate {A = ℕ} 512 0; within = omega arith }

-- A read of a pipe that holds something gives the oldest bytes, as many as are asked for and there,
-- and leaves the rest; it wakes every waiting writer, to try again, and the pipe stays valid.
module _ (pid n : ℕ) (p : PipeBuffer) (t : Table) (v : IsValid p) where
  pub read_data :
      0 < p.offset
      → let r = read_buffer pid n p t in
        (r.outcome ≡ moved (min n p.offset))
        × (r.out ≡ take (min n p.offset) (contents p))
        × (contents r.pipe ≡ drop (min n p.offset) (contents p))
        × (r.pipe.waiting_to_write ≡ [])
        × (r.table ≡ wake_all p.waiting_to_write minus_two t)
        × IsValid r.pipe
  unfolding read_buffer
  read_data h =
      let count = min n p.offset in
      let e : (if ltb p.offset n then p.offset else n) ≡ count = ground arith in
      let holds : (p.offset == 0) ≡ false = ground arith in
      rw (holds, e)
        (
          refl,
          sym (take-take count p.offset p.bytes (omega arith)),
          take-shift_down count p.offset p.bytes (omega arith) (omega (arith, v.sized, v.within)),
          refl,
          refl,
          record {
            sized = length-shift_down count p.bytes (omega (arith, v.sized, v.within)) ∙ v.sized;
            within = omega (arith, v.within);
          },
        )

  -- A read of an empty pipe fails if the write end is closed, and nothing changes; else the reader
  -- is put at the end of those that wait for a write, and is to try again.
  pub read_empty :
      p.offset ≡ 0
      → read_buffer pid n p t ≡ (
          if p.write_closed
          then record { outcome = failed; out = []; pipe = p; table = t }
          else record {
            outcome = retry;
            out = [];
            pipe = record p { waiting_to_read = p.waiting_to_read ++ (pid ∷ []) };
            table = t;
          })
  unfolding read_buffer
  read_empty h = let empty : (p.offset == 0) ≡ true = ground arith in rw empty

  -- A write of at least one byte that fits appends the bytes, at most 512 of them, to the contents,
  -- wakes every waiting reader to try again, and the pipe stays valid.
  pub write_fits :
      (buffer : List ℕ)
      → n ≤ length buffer
      → 0 < n
      → p.offset + min n pipe_bufsz ≤ pipe_bufsz
      → let r = write_buffer pid n buffer p t in
        (r.outcome ≡ moved (min n pipe_bufsz))
        × (r.out ≡ [])
        × (contents r.pipe ≡ contents p ++ take (min n pipe_bufsz) buffer)
        × (r.pipe.waiting_to_read ≡ [])
        × (r.table ≡ wake_all p.waiting_to_read minus_two t)
        × IsValid r.pipe
  unfolding write_buffer
  write_fits buffer l h f =
      let count = min n pipe_bufsz in
      let e : (if ltb pipe_bufsz n then pipe_bufsz else n) ≡ count = ground arith in
      let some_bytes : (n == 0) ≡ false = ground arith in
      let room : ltb pipe_bufsz (p.offset + count) ≡ false = ground arith in
      let size : length (take count buffer) ≡ count = omega (arith, length-take count buffer) in
      let fits : p.offset + length (take count buffer) ≤ length p.bytes =
        omega (arith, size, v.sized) in
      rw (some_bytes, e, room)
        (
          refl,
          refl,
          ap (λ k. take (p.offset + k) (overwrite p.bytes p.offset (take count buffer))) (sym size)
              ∙ take-overwrite p.offset p.bytes (take count buffer) fits,
          refl,
          refl,
          record {
            sized = length-overwrite p.offset p.bytes (take count buffer) fits ∙ v.sized;
            within = f;
          },
        )

  -- A write that does not fit changes no byte: the writer is put at the end of those that wait for a
  -- read, and is to try again.
  pub write_full :
      (buffer : List ℕ)
      → pipe_bufsz < p.offset + min n pipe_bufsz
      → write_buffer pid n buffer p t ≡ record {
        outcome = retry;
        out = [];
        pipe = record p { waiting_to_write = p.waiting_to_write ++ (pid ∷ []) };
        table = t;
      }
  unfolding write_buffer
  write_full buffer h =
      let e : (if ltb pipe_bufsz n then pipe_bufsz else n) ≡ min n pipe_bufsz = ground arith in
      let some_bytes : (n == 0) ≡ false = ground (arith, v.within) in
      let full : ltb pipe_bufsz (p.offset + min n pipe_bufsz) ≡ true = ground arith in
      rw (some_bytes, e, full)

-- One call on a pipe.
pub data Op : Type 0 where
  do_read : ℕ → ℕ → Op
  do_write : ℕ → List ℕ → Op

-- A write of a whole buffer.
unfoldable pub perform : Op → PipeBuffer → Table → Result
perform (do_read pid n) p t = read_buffer pid n p t
perform (do_write pid buffer) p t = write_buffer pid (length buffer) buffer p t

-- The bytes of a write that were accepted.
unfoldable pub accepted : Op → Outcome → List ℕ
accepted (do_read pid n) o = []
accepted (do_write pid buffer) (moved n) = take n buffer
accepted (do_write pid buffer) failed = []
accepted (do_write pid buffer) retry = []

-- One call neither loses nor invents a byte.
abbrev pub Conserves : Op → PipeBuffer → Result → Type 0
Conserves o p r = (r.out ++ contents r.pipe ≡ contents p ++ accepted o r.outcome) × IsValid r.pipe

write_nothing :
    (pid n : ℕ) (buffer : List ℕ) (p : PipeBuffer) (t : Table)
    → n ≡ 0
    → write_buffer pid n buffer p t ≡ record { outcome = moved 0; out = []; pipe = p; table = t }
unfolding write_buffer
write_nothing pid n buffer p t h = let none : (n == 0) ≡ true = ground arith in rw none

read-Conserves :
    (pid n : ℕ) (p : PipeBuffer) (t : Table)
    → IsValid p
    → Conserves (do_read pid n) p (read_buffer pid n p t)
unfolding accepted
read-Conserves pid n p t v = elim (Bool-cases (p.offset == 0)) [
  | inl empty ↦ rw (read_empty pid n p t v (ground arith)) (when_empty p.write_closed)
  | inr holds ↦
      let (_, out, left, _, _, valid) = read_data pid n p t v (ground arith) in
      (
        ap₂ ◌++◌ out left
            ∙ take-append-drop (min n p.offset) (contents p)
            ∙ sym (append-nil (contents p)),
        valid,
      )
]
  where
    when_empty :
        (b : Bool)
        → Conserves (do_read pid n) p (
            if b then record { outcome = failed; out = []; pipe = p; table = t } else record {
              outcome = retry;
              out = [];
              pipe = record p { waiting_to_read = p.waiting_to_read ++ (pid ∷ []) };
              table = t;
            })
    when_empty true = (sym (append-nil (contents p)), v)
    when_empty false =
        (sym (append-nil (contents p)), record { sized = v.sized; within = v.within })

accepted-moved :
    (pid n : ℕ) (buffer : List ℕ) (o : Outcome)
    → o ≡ moved n
    → accepted (do_write pid buffer) o ≡ take n buffer
unfolding accepted
accepted-moved pid n buffer o e = rw e

write-Conserves :
    (pid : ℕ) (buffer : List ℕ) (p : PipeBuffer) (t : Table)
    → IsValid p
    → Conserves (do_write pid buffer) p (write_buffer pid (length buffer) buffer p t)
write-Conserves pid buffer p t v = elim (Bool-cases (length buffer == 0)) [
  | inl nothing ↦
      rw (write_nothing pid (length buffer) buffer p t (ground arith))
        (unfold accepted in (sym (append-nil (contents p)), v))
  | inr something ↦ elim (Bool-cases (ltb pipe_bufsz (p.offset + min (length buffer) pipe_bufsz))) [
    | inl full ↦ rw (write_full pid (length buffer) p t v buffer (ground arith)) (
        unfold accepted in
        (sym (append-nil (contents p)), record { sized = v.sized; within = v.within }))
    | inr fits ↦
        let (outcome, out, left, _, _, valid) =
          write_fits pid (length buffer) p t v buffer (omega arith) (ground arith) (ground arith) in
        (
          ap₂ ◌++◌ out left
              ∙ ap (λ r. contents p ++ r) (sym (accepted-moved pid _ buffer _ outcome)),
          valid,
        )
  ]
]

pub perform-Conserves :
    (o : Op) (p : PipeBuffer) (t : Table) → IsValid p → Conserves o p (perform o p t)
unfolding perform
perform-Conserves (do_read pid n) p t v = read-Conserves pid n p t v
perform-Conserves (do_write pid buffer) p t v = write-Conserves pid buffer p t v

-- A pipe, with the table of the processes that it wakes, between its readers and its writers.
abbrev pub pipe_between : Buffer Op (PipeBuffer × Table)
pipe_between = record {
  step = λ o (p, t).
      let r = perform o p t in
      record { given = r.out; taken = accepted o r.outcome; after = (r.pipe, r.table) };
  contents = λ (p, t). contents p;
  Valid = λ (p, t). IsValid p;
  conserves = λ o (p, t). perform-Conserves o p t;
}

-- For any sequence of reads and writes by any processes: the bytes that were read, followed by the
-- bytes that the pipe holds in the end, are the bytes that it held, followed by those that it took;
-- and the pipe stays valid.
pub run-stream :
    (os : List Op) (p : PipeBuffer) (t : Table)
    → IsValid p
    → let r = run pipe_between os (p, t) in
      (r.given ++ contents r.after.0 ≡ contents p ++ r.taken) × IsValid r.after.0
run-stream os p t v = run-conserves pipe_between os (p, t) v
