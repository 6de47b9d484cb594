-- ===== src/Syscalls/Mapping.antt =====
-- `sys$6_map` and `sys$7_unmap`, kernel/src/interrupts/syscalls.cpp, of the process that calls them.
pub mod Memory
mod Examples
use lensor_os.Prelude.{
  ℕ, ◌+◌, ◌*◌, ◌/◌, ◌%◌, Bool, Option, none, some, List, [], ◌∷◌, if◌then◌else◌, ◌==◌,
}
use lensor_os.Prelude.Words.{u64_mod, add64}
use lensor_os.Memory.Physical.{Physical, request_pages, free_pages}
use lensor_os.Memory.Paging.{pointer}
use lensor_os.Memory.Paging.{
  PageTables, PageTableFlag, present, read_write, user_super, bit, map_pages, unmap_pages,
}
use lensor_os.Process.{Process, Region, page_size, add_memory_region, remove_memory_region}

abbrev pub pages_of : ℕ → ℕ
pages_of size = if size % page_size == 0 then size / page_size else 1 + size / page_size

-- The three flags, whose values have no bit in common.
abbrev pub memory_flags : ℕ
memory_flags = bit present + bit user_super + bit read_write

-- What a call leaves: the process and the tables, whose allocator is the kernel's.
pub record Space : Type 0 where
  pub process : Process
  pub tables : PageTables

-- The address that the memory is placed at, and the process after that choice.
unfoldable pub place_at : ℕ → ℕ → Process → ℕ × Process
place_at address pages p =
    if address == 0
    then (
      p.next_region_vaddr,
      record p { next_region_vaddr = add64 p.next_region_vaddr (pages * page_size % u64_mod) },
    )
    else (address, p)

-- The flags that the program gives are not used.
unfoldable pub sys_map : ℕ → ℕ → Space → ℕ × Space
sys_map address size s =
    let pages = pages_of size in
    let requested = request_pages pages s.tables.physical in
    let paddr = pointer requested.0 in
    let placed = place_at address pages s.process in
    let p' = add_memory_region placed.0 paddr size memory_flags placed.1 in
    let t' : PageTables = record s.tables { physical = requested.1 } in
    (
      placed.0,
      record { process = p'; tables = map_pages p'.cr3 placed.0 paddr memory_flags pages t' },
    )

-- The first region at an address.
unfoldable pub region_at : ℕ → List Region → Option Region
region_at address [] = none
region_at address (r ∷ rs) = if r.vaddr == address then some r else region_at address rs

unfoldable pub sys_unmap : ℕ → Space → Space
sys_unmap address s = elim (region_at address s.process.memories) [
  | none ↦ s
  | some r ↦
      let t = unmap_pages s.process.cr3 address r.pages s.tables in
      record {
        process = remove_memory_region address s.process;
        tables = record t { physical = free_pages r.paddr r.pages t.physical };
      }
]
