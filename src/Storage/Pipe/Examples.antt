-- ===== src/Storage/Pipe/Examples.antt =====
-- Runs of pipes.
use lensor_os.Event.Queue.{contains}
use lensor_os.Prelude.{ℕ, true, ◌≡◌, [], ◌∷◌, ◌++◌, arith}
use lensor_os.Process.{sleeping}
use lensor_os.Process.Table.{Table}
use lensor_os.Samples.{bare}
use lensor_os.Storage.Conserving.{run}
use lensor_os.Storage.Pipe.{PipeBuffer, clear_buffer, PipeDriver}
use lensor_os.Storage.Pipe.Stream.{
  IsValid, contents, clear_buffer-IsValid, do_read, do_write, perform, pipe_between, run-stream,
}
use lensor_os.Storage.Pipe.Wake.{NoReaderWaits, KeptOrWoken, perform-NoReaderWaits}
use lensor_os.Storage.Pipe.Driver.{IsSound}

abbrev sleeper : Table
sleeper = bare 4 sleeping ∷ []

abbrev waited_for : PipeBuffer
waited_for = record clear_buffer { waiting_to_read = 4 ∷ [] }

run-stream_example :
    let r = run pipe_between (do_write 1 (5 ∷ 6 ∷ []) ∷ do_read 2 1 ∷ []) (clear_buffer, sleeper) in
    (r.given ++ contents r.after.0 ≡ contents clear_buffer ++ r.taken) × IsValid r.after.0
run-stream_example =
    run-stream (do_write 1 (5 ∷ 6 ∷ []) ∷ do_read 2 1 ∷ []) clear_buffer sleeper
      clear_buffer-IsValid

perform-NoReaderWaits_example :
    let r = perform (do_write 1 (5 ∷ [])) waited_for sleeper in
    NoReaderWaits r.pipe
    × ((j : ℕ)
        → contains waited_for.waiting_to_read j ≡ true
        → KeptOrWoken j waited_for sleeper r.pipe r.table)
perform-NoReaderWaits_example =
    perform-NoReaderWaits (do_write 1 (5 ∷ [])) waited_for sleeper (λ h. absurd (omega arith))

abbrev driver : PipeDriver
driver = record { buffers = λ _. waited_for; free_buffers = []; counter = 1 }

driver-IsSound : IsSound driver
driver-IsSound = record { clear = λ a h. ground arith; distinct = tt }
