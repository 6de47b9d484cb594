-- ===== src/Storage/Fifo/Stream.antt =====
-- The stream property of a socket's buffer, over any sequence of reads and writes.
use lensor_os.Prelude.{
  ℕ, ◌+◌, ◌≡◌, ◌∙◌, sym, ap, ap₂, ◌<◌, List, [], ◌++◌, arith, ltb, ◌==◌, min, Bool-cases, inl, inr,
  length, take, take-append-drop, append-nil,
}
use lensor_os.Prelude.Words.{u64_mod}
use lensor_os.Process.Table.{Table}
use lensor_os.Storage.Conserving.{Buffer, run, run-conserves}
use lensor_os.Storage.Pipe.{Outcome, moved, failed, retry}
use lensor_os.Storage.Fifo.{FifoBuffer, Result, write, read}
use lensor_os.Storage.Fifo.Laws.{IsValid, contents, read_data, read_empty, write_fits, write_full}

-- A write of a whole buffer, which the address space bounds: its length leaves room for the offset.
pub data Op (size : ℕ) : Type 0 where
  do_read : ℕ → ℕ → Op size
  do_write : ℕ → (buffer : List ℕ) → size + length buffer < u64_mod → Op size

module _ (size : ℕ) where
  unfoldable pub perform : Op size → FifoBuffer → Table → Result
  perform (do_read pid n) f t = read pid n f t
  perform (do_write pid buffer _) f t = write size pid (length buffer) buffer f t

  -- The bytes of a write that were accepted.
  unfoldable pub accepted : Op size → Outcome → List ℕ
  accepted (do_read pid n) o = []
  accepted (do_write pid buffer _) (moved n) = take n buffer
  accepted (do_write pid buffer _) failed = []
  accepted (do_write pid buffer _) retry = []

  abbrev pub Conserves : Op size → FifoBuffer → Result → Type 0
  Conserves o f r =
      (r.out ++ contents r.fifo ≡ contents f ++ accepted o r.outcome) × IsValid size r.fifo

  accepted-moved :
      (pid n : ℕ) (buffer : List ℕ) (b : size + length buffer < u64_mod) (o : Outcome)
      → o ≡ moved n
      → accepted (do_write pid buffer b) o ≡ take n buffer
  unfolding accepted
  accepted-moved pid n buffer b o e = rw e

  pub perform-Conserves :
      (o : Op size) (f : FifoBuffer) (t : Table) → IsValid size f → Conserves o f (perform o f t)
  unfolding perform accepted
  perform-Conserves (do_read pid n) f t v = elim (Bool-cases (f.offset == 0)) [
    | inl empty ↦ rw (read_empty size pid n f t v (ground arith)) (
      sym (append-nil (contents f)),
      record { sized = v.sized; within = v.within; small = v.small },
    )
    | inr holds ↦
        let (_, out, left, _, valid) = read_data size pid n f t v (ground arith) in
        (
          ap₂ ◌++◌ out left
              ∙ take-append-drop (min n f.offset) (contents f)
              ∙ sym (append-nil (contents f)),
          valid,
        )
  ]
  perform-Conserves (do_write pid buffer b) f t v =
      elim (Bool-cases (ltb size (f.offset + length buffer))) [
        | inl full ↦
            rw
              (write_full size pid (length buffer) f t v buffer (ground arith)
                (omega (arith, v.within)))
              (
                sym (append-nil (contents f)),
                record { sized = v.sized; within = v.within; small = v.small },
              )
        | inr fits ↦
            let (outcome, out, left, _, valid) =
              write_fits size pid (length buffer) f t v buffer (omega arith) (ground arith) in
            (
              ap₂ ◌++◌ out left
                  ∙ ap (λ r. contents f ++ r) (sym (accepted-moved pid _ buffer b _ outcome)),
              valid,
            )
      ]

  abbrev pub fifo_between : Buffer (Op size) (FifoBuffer × Table)
  fifo_between = record {
    step = λ o (f, t).
        let r = perform o f t in
        record { given = r.out; taken = accepted o r.outcome; after = (r.fifo, r.table) };
    contents = λ (f, t). contents f;
    Valid = λ (f, t). IsValid size f;
    conserves = λ o (f, t). perform-Conserves o f t;
  }

  -- For any sequence of reads and writes by any processes: the bytes that were read, followed by the
  -- bytes that the buffer holds in the end, are those that it held, followed by those that it took.
  pub run_fifo-stream :
      (os : List (Op size)) (f : FifoBuffer) (t : Table)
      → IsValid size f
      → let r = run fifo_between os (f, t) in
        (r.given ++ contents r.after.0 ≡ contents f ++ r.taken) × IsValid size r.after.0
  run_fifo-stream os f t v = run-conserves fifo_between os (f, t) v
