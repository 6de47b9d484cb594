-- ===== src/Process/Examples.antt =====
-- The regions of a process.
use lensor_os.Prelude.{ℕ, ◌≡◌, ◌≢◌, ◌↔◌, true, [], ◌∷◌, arith}
use lensor_os.Process.{Process, running, Region, valid_address}
use lensor_os.Process.Memories.{InSome, valid_address_iff}
use lensor_os.Samples.{bare}

abbrev stack : Region
stack = record { vaddr = 4096; paddr = 8192; size = 100; pages = 1; flags = 7 }

abbrev with_stack : Process
with_stack = record (bare 1 running) { memories = stack ∷ [] }

valid_address_iff_example :
    (valid_address 4100 with_stack ≡ true)
    ↔ ((◌≢◌ {A = ℕ} 4100 0) × InSome 4100 with_stack.memories)
valid_address_iff_example = valid_address_iff 4100 with_stack (omega arith, tt)
