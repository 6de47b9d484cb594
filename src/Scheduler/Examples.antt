-- ===== src/Scheduler/Examples.antt =====
-- Runs of the scheduler.
use lensor_os.Prelude.{
  ℕ, ◌≡◌, ◌⊎◌, refl, true, false, none, some, [], ◌∷◌, ◌%◌, ◌^◌, arith, if◌then◌else◌, ◌==◌,
}
use lensor_os.Memory.Physical.{Physical}
use lensor_os.Memory.Physical.Locks.{locked}
use lensor_os.Scheduler.Reclaimed.{in_regions}
use lensor_os.Process.{Process, Region, running, sleeping}
use lensor_os.Process.Table.{Table, process}
use lensor_os.Samples.{bare, no_files, bare-IsSound}
use lensor_os.Storage.VirtualFilesystem.Tables.{IsSound}
use lensor_os.Syscalls.Files.{returned}
use lensor_os.Scheduler.{
  Kernel, add_process, announce, find_process, remove_process, yield, switch_process, first_running,
}
use lensor_os.Scheduler.Switch.{runs, Next, switch_process-Next}
use lensor_os.Scheduler.Fairness.{comes_to, comes_to-Ready}
use lensor_os.Scheduler.Lifetime.{Ended, IsSound-fields, remove_process-Ended, yield-remove_process}
use lensor_os.Scheduler.Numbers.{HasIds, add_process-HasIds}
use lensor_os.Scheduler.Waiting.{find_zombie, waitpid, waitpid-announce}

abbrev three : Table
three = bare 0 running ∷ bare 1 sleeping ∷ bare 2 running ∷ []

abbrev later : Table
later = bare 0 running ∷ bare 1 running ∷ bare 2 running ∷ []

switch_skips_sleepers : switch_process 0 three ≡ some 2
unfolding switch_process first_running
switch_skips_sleepers = refl

switch_goes_round : switch_process 2 three ≡ some 0
unfolding switch_process first_running
switch_goes_round = refl

comes_to-Ready_example : comes_to 2 0 (later ∷ three ∷ three ∷ []) ≡ true
comes_to-Ready_example =
    comes_to-Ready 3 2 0 (later ∷ three ∷ three ∷ []) (omega arith) (omega arith) (omega arith)
      ((refl, refl), ((refl, refl), ((refl, refl), tt))) (omega arith)

switch_process-Next_example :
    ((j : ℕ) × (switch_process 0 three ≡ some j) × Next three 0 j)
    ⊎ ((switch_process 0 three ≡ none) × ((i : ℕ) → runs three i ≡ false))
switch_process-Next_example = switch_process-Next three 0 (omega arith) (omega arith)

abbrev no_memory : Physical
no_memory = record {
  page_map = record { size = 0; buffer = [] };
  total_pages = 0;
  total_free_pages = 0;
  total_used_pages = 0;
  max_free_pages_in_a_row = 0;
  first_free_page = 0;
}

-- Process 1, of which 0 is the parent, with 2 waiting for it, is current.
abbrev child : Process
child = record (bare 1 running) { waiting_list = 2 ∷ [] }

abbrev kernel : Kernel
kernel = record {
  the_pid = 2;
  queue = bare 0 running ∷ child ∷ bare 2 sleeping ∷ [];
  current = some 1;
  physical = no_memory;
  vfs = no_files;
  closed = [];
  page_maps_to_free = [];
  init_process = none;
}

kernel-HasIds : HasIds kernel
unfolding process
kernel-HasIds = record {
  distinct = (refl, (refl, (refl, tt)));
  below = (omega arith, (omega arith, (omega arith, tt)));
}

child-IsSound : IsSound no_files child
child-IsSound = IsSound-fields no_files (bare 1 running) child refl (bare-IsSound 1 running)

add_process-HasIds_example :
    let (pid, k') = add_process (bare 0 sleeping) kernel in
    (process kernel.queue pid ≡ none)
    × ((j : ℕ)
        → process k'.queue j ≡ (
            if pid == j
            then some (record (bare 0 sleeping) { process_id = pid })
            else process kernel.queue j))
    × HasIds k'
add_process-HasIds_example = add_process-HasIds (bare 0 sleeping) kernel kernel-HasIds (omega arith)

-- The same process with two pages of a memory of which every page is locked.
abbrev all_locked : Physical
all_locked = record no_memory { page_map = record { size = 1; buffer = 255 ∷ [] }; total_pages = 8 }

abbrev region_of_two : Region
region_of_two = record { vaddr = 0; paddr = 12288; size = 5000; pages = 2; flags = 7 }

abbrev owner : Process
owner = record child { memories = region_of_two ∷ [] }

abbrev owning : Kernel
owning = record kernel {
  queue = bare 0 running ∷ owner ∷ bare 2 sleeping ∷ [];
  physical = all_locked;
}

remove_process-Ended_example :
    (k' : Kernel) × (remove_process 1 5 owning ≡ some (true, k'))
    × Ended owning 1 5 owner k'
    × ((page : ℕ)
        → locked k'.physical page
          ≡ (if in_regions owner.memories page then false else locked all_locked page))
unfolding process
remove_process-Ended_example =
    remove_process-Ended owning 1 5 owner (refl, (refl, (refl, tt))) refl
      (IsSound-fields no_files (bare 1 running) owner refl (bare-IsSound 1 running))
      (record { sized = refl; bytes = (omega arith, tt) })
      (omega arith, omega arith, omega arith, tt)

yield-remove_process_example :
    (k' : Kernel) × (remove_process 1 5 kernel ≡ some (true, k')) × (yield k' ≡ none)
unfolding process find_process
yield-remove_process_example =
    yield-remove_process kernel 1 5 1 child kernel-HasIds.distinct refl refl child-IsSound refl

abbrev waiter : Process
waiter = bare 0 sleeping

waitpid-announce_example :
    let t' = announce (bare 1 running) 5 (waiter ∷ []) in
    let (answer, t'') = waitpid 0 1 t' in
    (answer ≡ returned (5 % 2 ^ 32))
    × ((j : ℕ) → process t'' j ≡ (if 0 == j then some waiter else process t' j))
unfolding process find_zombie
waitpid-announce_example =
    waitpid-announce 0 5 waiter (bare 1 running) (waiter ∷ []) refl refl refl refl
