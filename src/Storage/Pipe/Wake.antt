-- ===== src/Storage/Pipe/Wake.antt =====
-- Who is woken by a read, a write or a close, and that nobody waits for what is there already.
use lensor_os.Prelude.{
  ℕ, ◌+◌, ◌≡◌, ◌∙◌, ap, ◌≤◌, ◌<◌, true, false, false≢true, List, [], ◌∷◌, ◌++◌, ◌⊎◌, inl, arith,
  if◌then◌else◌, min, length,
}
use lensor_os.Prelude.Words.{minus_one, minus_two}
use lensor_os.Event.Queue.{contains}
use lensor_os.Process.{unblock}
use lensor_os.Process.Table.{Table, process, process-wake_all, map_option}
use lensor_os.Storage.Pipe.{
  PipeBuffer, pipe_bufsz, EndType, read_end, write_end, PipeDriver, read_buffer, write_buffer,
  close_end,
}
use lensor_os.Storage.Pipe.Stream.{IsValid, read_data, write_fits, Op, do_read, do_write, perform}

-- The processes of the list are running, with the value as the result of their call; every other
-- process is as it was.
abbrev pub Woken : List ℕ → ℕ → Table → Table → Type 0
Woken pids value t t' =
    (j : ℕ)
    → process t' j
      ≡ (if contains pids j then map_option (unblock true value) (process t j) else process t j)

-- A read that gets data wakes exactly the waiting writers, and a write that fits exactly the waiting
-- readers: each finds -2, which tells it to try again.
pub read_wakes :
    (pid n : ℕ) (p : PipeBuffer) (t : Table)
    → IsValid p
    → 0 < p.offset
    → Woken p.waiting_to_write minus_two t (read_buffer pid n p t).table
read_wakes pid n p t v h j =
    let (_, _, _, _, table, _) = read_data pid n p t v h in
    ap (λ t'. process t' j) table ∙ process-wake_all p.waiting_to_write minus_two j t

pub write_wakes :
    (pid n : ℕ) (buffer : List ℕ) (p : PipeBuffer) (t : Table)
    → IsValid p
    → n ≤ length buffer
    → 0 < n
    → p.offset + min n pipe_bufsz ≤ pipe_bufsz
    → Woken p.waiting_to_read minus_two t (write_buffer pid n buffer p t).table
write_wakes pid n buffer p t v l h f j =
    let (_, _, _, _, table, _) = write_fits pid n p t v buffer l h f in
    ap (λ t'. process t' j) table ∙ process-wake_all p.waiting_to_read minus_two j t

-- Who waits for something to happen at the other side of an end.
abbrev pub waiting_for : EndType → PipeBuffer → List ℕ
waiting_for read_end p = p.waiting_to_write
waiting_for write_end p = p.waiting_to_read

-- Closing an end that is open wakes those that wait on that end with -1, and no other process changes.
pub close_wakes :
    (e : EndType) (address : ℕ) (d : PipeDriver) (t : Table)
    → let p = d.buffers address in
      (p.read_closed ≡ false)
      → (p.write_closed ≡ false)
      → Woken (waiting_for e p) minus_one t (close_end e address d t).1
unfolding close_end
close_wakes read_end address d t r w j =
    rw r (process-wake_all (d.buffers address).waiting_to_write minus_one j t)
close_wakes write_end address d t r w j =
    rw w (process-wake_all (d.buffers address).waiting_to_read minus_one j t)

-- No reader waits for a pipe that holds something.
abbrev pub NoReaderWaits : PipeBuffer → Type 0
NoReaderWaits p = 0 < p.offset → p.waiting_to_read ≡ []

none_waits_read :
    (pid n : ℕ) (p : PipeBuffer) (t : Table)
    → NoReaderWaits p
    → NoReaderWaits (read_buffer pid n p t).pipe
unfolding read_buffer
none_waits_read pid n p t v = ground arith

none_waits_write :
    (pid n : ℕ) (buffer : List ℕ) (p : PipeBuffer) (t : Table)
    → NoReaderWaits p
    → NoReaderWaits (write_buffer pid n buffer p t).pipe
unfolding write_buffer
none_waits_write pid n buffer p t v = ground arith

contains-snoc : (xs : List ℕ) (x j : ℕ) → contains xs j ≡ true → contains (xs ++ (x ∷ [])) j ≡ true
contains-snoc [] x j e = absurd (false≢true e)
contains-snoc (y ∷ xs) x j e = ground (arith, contains-snoc xs x j)

-- A process that waits to read still waits afterwards, or runs with -2 as the result of its call.
abbrev pub KeptOrWoken : ℕ → PipeBuffer → Table → PipeBuffer → Table → Type 0
KeptOrWoken j p t p' t' =
    (contains p'.waiting_to_read j ≡ true)
    ⊎ (process t' j ≡ map_option (unblock true minus_two) (process t j))

read_keeps :
    (pid n j : ℕ) (p : PipeBuffer) (t : Table)
    → contains p.waiting_to_read j ≡ true
    → contains (read_buffer pid n p t).pipe.waiting_to_read j ≡ true
unfolding read_buffer
read_keeps pid n j p t e = ground (arith, contains-snoc p.waiting_to_read pid j)

write_keeps :
    (pid n j : ℕ) (buffer : List ℕ) (p : PipeBuffer) (t : Table)
    → contains p.waiting_to_read j ≡ true
    → let r = write_buffer pid n buffer p t in KeptOrWoken j p t r.pipe r.table
unfolding write_buffer
write_keeps pid n j buffer p t e =
    let woken = process-wake_all p.waiting_to_read minus_two j t in ground (arith, woken)

-- No wake-up is lost: after any read or write, by whichever branch, no process waits to read a pipe
-- that holds something if none did before, and a process that waited to read still waits, or runs
-- with -2 as the result of its call.
pub perform-NoReaderWaits :
    (o : Op) (p : PipeBuffer) (t : Table)
    → NoReaderWaits p
    → let r = perform o p t in
      NoReaderWaits r.pipe
      × ((j : ℕ) → contains p.waiting_to_read j ≡ true → KeptOrWoken j p t r.pipe r.table)
unfolding perform
perform-NoReaderWaits (do_read pid n) p t v =
    (none_waits_read pid n p t v, λ j e. inl (read_keeps pid n j p t e))
perform-NoReaderWaits (do_write pid buffer) p t v = (
  none_waits_write pid (length buffer) buffer p t v,
  λ j e. write_keeps pid (length buffer) j buffer p t e,
)
