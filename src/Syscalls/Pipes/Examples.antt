-- ===== src/Syscalls/Pipes/Examples.antt =====
-- A pipe made by a process with no open file.
use lensor_os.Prelude.{ℕ, ◌≡◌, ◌⊎◌, refl, true, false, none, some, [], ◌∷◌, arith}
use lensor_os.Process.{Process, Region, valid_address}
use lensor_os.Samples.{user, no_files, bare-IsSound}
use lensor_os.Process.{running}
use lensor_os.Storage.Pipe.{PipeDriver, clear_buffer}
use lensor_os.Storage.Pipe.Driver
use lensor_os.Scheduler.Lifetime.{IsSound-fields}
use lensor_os.Syscalls.Pipes.{System, Allocated, sys_pipe, Piped, sys_pipe-Piped}

abbrev stack : Region
stack = record { vaddr = 4096; paddr = 8192; size = 100; pages = 1; flags = 7 }

abbrev caller : Process
caller = record user { memories = stack ∷ [] }

abbrev no_pipes : PipeDriver
no_pipes = record { buffers = λ a. clear_buffer; free_buffers = []; counter = 0 }

no_pipes-IsSound : Driver.IsSound no_pipes
no_pipes-IsSound = record { clear = λ a h. refl; distinct = tt }

abbrev system : System
system = record { vfs = no_files; process = caller; pipes = no_pipes; ends = λ m. none }

abbrev allocated : Allocated
allocated = record { buffer = 64; read_meta = 128; write_meta = 192 }

sys_pipe-Piped_example :
    ((valid_address 4100 caller ≡ true)
      × (r : ℕ) × (w : ℕ) × (s' : System) × (sys_pipe 4100 allocated system ≡ (some (r, w), s'))
      × Piped allocated system r w s')
    ⊎ ((valid_address 4100 caller ≡ false) × (sys_pipe 4100 allocated system ≡ (none, system)))
sys_pipe-Piped_example =
    sys_pipe-Piped 4100 allocated system
      (IsSound-fields no_files user caller refl (bare-IsSound 1 running)) no_pipes-IsSound refl
      (λ e. absurd (omega arith))
