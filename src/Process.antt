-- ===== src/Process.antt =====
-- `struct Process` of kernel/src/scheduler.h, and the table of processes. A `SinglyLinkedList` is
-- the list of its values from the head on; the saved CPU state is the register RAX, which carries
-- the return value; paths and FPU state are left out.
pub mod Table
pub mod Memories
pub mod Notify
mod Examples
use lensor_os.Prelude.{
  ℕ, zero, suc, ◌+◌, ◌-◌, ◌*◌, ◌/◌, ◌%◌, Bool, true, false, not, ◌&&◌, Option, none, some, List, [],
  ◌∷◌, ◌++◌, leb, ltb, if◌then◌else◌, ◌==◌,
}
use lensor_os.Prelude.Words.{u64_mod, add64, minus_one}
use lensor_os.Containers.SparseVector
use lensor_os.Containers.SparseVector.{SparseVector}
use lensor_os.Event.Queue.{EventQueue}

-- `Memory::Region`, kernel/src/memory/region.h.
pub record Region : Type 0 where
  pub vaddr : ℕ
  pub paddr : ℕ
  pub size : ℕ
  pub pages : ℕ
  pub flags : ℕ

abbrev pub page_size : ℕ
page_size = 4096

unfoldable pub region : ℕ → ℕ → ℕ → ℕ → Region
region vaddr paddr bytes flag = record {
  vaddr = vaddr;
  paddr = paddr;
  size = bytes;
  pages = if bytes % page_size == 0 then bytes / page_size else 1 + (bytes / page_size);
  flags = flag;
}

pub record ZombieState : Type 0 where
  pub pid : ℕ
  pub return_status : ℕ

pub data ProcessState : Type 0 where
  running : ProcessState
  sleeping : ProcessState

pub record Process : Type 0 where
  pub process_id : ℕ
  pub state : ProcessState
  pub memories : List Region
  pub next_region_vaddr : ℕ
  pub parent_process : ℕ
  pub waiting_list : List ℕ
  pub zombies : List ZombieState
  pub file_descriptors : SparseVector ℕ
  pub event_queues : List EventQueue
  pub rax : ℕ
  pub cr3 : ℕ

-- A process as the default constructor leaves it.
unfoldable pub new_process : Process
new_process = record {
  process_id = 0;
  state = running;
  memories = [];
  next_region_vaddr = 0xf8000000;
  parent_process = minus_one;
  waiting_list = [];
  zombies = [];
  file_descriptors = SparseVector.empty;
  event_queues = [];
  rax = 0;
  cr3 = 0;
}

-- `sysfd_to_procfd`: the first index that maps to the descriptor, or `ProcFD::Invalid`.
unfoldable pub first_key : ℕ → List (ℕ × ℕ) → ℕ
first_key sysfd [] = minus_one
first_key sysfd ((procfd, fd) ∷ rest) = if fd == sysfd then procfd else first_key sysfd rest

unfoldable pub sysfd_to_procfd : Process → ℕ → ℕ
sysfd_to_procfd p sysfd = first_key sysfd (SparseVector.pairs p.file_descriptors)

-- `Memories.add` puts the region at the head.
unfoldable pub add_memory_region : ℕ → ℕ → ℕ → ℕ → Process → Process
add_memory_region vaddr paddr size flags p = record p {
  memories = region vaddr paddr size flags ∷ p.memories;
}

-- `remove_memory_region`: the first region at the address goes.
unfoldable pub remove_first : ℕ → List Region → List Region
remove_first vaddr [] = []
remove_first vaddr (r ∷ rs) = if r.vaddr == vaddr then rs else r ∷ remove_first vaddr rs

unfoldable pub remove_memory_region : ℕ → Process → Process
remove_memory_region vaddr p = record p { memories = remove_first vaddr p.memories }

-- `valid_address`: the end of a region is computed in 64 bits.
unfoldable pub in_a_region : ℕ → List Region → Bool
in_a_region vaddr [] = false
in_a_region vaddr (r ∷ rs) =
    if leb r.vaddr vaddr && ltb vaddr (add64 r.vaddr r.size) then true else in_a_region vaddr rs

unfoldable pub valid_address : ℕ → Process → Bool
valid_address vaddr p = if vaddr == 0 then false else in_a_region vaddr p.memories

unfoldable pub set_return_value : ℕ → Process → Process
set_return_value value p = record p { rax = value }

unfoldable pub unblock : Bool → ℕ → Process → Process
unfolding set_return_value
unblock set_return return_value p =
    record (if set_return then set_return_value return_value p else p) { state = running }
