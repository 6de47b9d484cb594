-- ===== src/Memory/Paging.antt =====
-- Page tables, kernel/src/memory/paging.h, and the functions of virtual_memory_manager.cpp that map
-- and unmap. A page directory entry is its 64-bit value; the tables in memory are a function from
-- the address of a table and an index to the entry. The debug output and the register CR3 are left
-- out.
pub mod Entry
pub mod Tree
pub mod Descent
pub mod Translation
pub mod Runs
pub mod Unmapping
pub mod Sample
mod Examples
use lensor_os.Prelude.{
  ℕ, zero, suc, ◌+◌, ◌-◌, ◌*◌, ◌/◌, ◌%◌, ◌^◌, Bool, true, false, List, [], ◌∷◌, ltb, if◌then◌else◌,
  ◌==◌,
}
use lensor_os.Prelude.Words.{u64_mod, add64}
use lensor_os.Memory.Physical.{
  Physical, Request, address, null, out_of_fuel, page_size, request_page,
}

pub data PageTableFlag : Type 0 where
  present : PageTableFlag
  read_write : PageTableFlag
  user_super : PageTableFlag
  write_through : PageTableFlag
  cache_disabled : PageTableFlag
  accessed : PageTableFlag
  dirty : PageTableFlag
  larger_pages : PageTableFlag
  global : PageTableFlag
  copy_on_write : PageTableFlag
  nx : PageTableFlag

-- The value of a flag.
abbrev pub bit : PageTableFlag → ℕ
bit present = 2 ^ 0
bit read_write = 2 ^ 1
bit user_super = 2 ^ 2
bit write_through = 2 ^ 3
bit cache_disabled = 2 ^ 4
bit accessed = 2 ^ 5
bit dirty = 2 ^ 6
bit larger_pages = 2 ^ 7
bit global = 2 ^ 8
bit copy_on_write = 2 ^ 9
bit nx = 2 ^ 63

pub record PageMapIndexer : Type 0 where
  pub page_directory_pointer : ℕ
  pub page_directory : ℕ
  pub page_table : ℕ
  pub page : ℕ

-- Shifts and masks as quotients and remainders.
unfoldable pub page_map_indexer : ℕ → PageMapIndexer
page_map_indexer virtual = record {
  page_directory_pointer = virtual / 2 ^ 39 % 512;
  page_directory = virtual / 2 ^ 30 % 512;
  page_table = virtual / 2 ^ 21 % 512;
  page = virtual / 2 ^ 12 % 512;
}

-- `PageDirectoryEntry::address`, the mask 0x000ffffffffff000.
unfoldable pub entry_address : ℕ → ℕ
entry_address value = value / 2 ^ 12 % 2 ^ 40 * 2 ^ 12

unfoldable pub set_address : ℕ → ℕ → ℕ
set_address a value = value / 2 ^ 52 * 2 ^ 52 + a / 2 ^ 12 % 2 ^ 40 * 2 ^ 12 + value % 2 ^ 12

unfoldable pub flag : PageTableFlag → ℕ → Bool
flag f value = value / bit f % 2 == 1

-- A bit is set by adding its value where it is not set, and reset by taking it away where it is.
unfoldable pub or_flag_if : PageTableFlag → Bool → ℕ → ℕ
unfolding flag
or_flag_if f enabled value =
    if enabled then (if flag f value then value else value + bit f) else value

unfoldable pub set_flag : PageTableFlag → Bool → ℕ → ℕ
unfolding flag
set_flag f enabled value =
    let cleared = if flag f value then value - bit f else value in
    if enabled then cleared + bit f else cleared

-- The flags that `map` passes on, in its order.
abbrev pub passed_flags : List PageTableFlag
passed_flags =
    present ∷ read_write ∷ user_super ∷ write_through ∷ cache_disabled ∷ accessed ∷ dirty
    ∷ larger_pages ∷ global ∷ []

unfoldable pub or_flags : List PageTableFlag → ℕ → ℕ → ℕ
or_flags [] mapping_flags value = value
or_flags (f ∷ fs) mapping_flags value =
    or_flags fs mapping_flags (or_flag_if f (flag f mapping_flags) value)

unfoldable pub set_flags : List PageTableFlag → ℕ → ℕ → ℕ
set_flags [] mapping_flags value = value
set_flags (f ∷ fs) mapping_flags value =
    set_flags fs mapping_flags (set_flag f (flag f mapping_flags) value)

pub record PageTables : Type 0 where
  pub physical : Physical
  pub entries : ℕ → ℕ → ℕ

unfoldable pub write_entry : ℕ → ℕ → ℕ → PageTables → PageTables
write_entry table index value s = record s {
  entries =
      λ t i. if t == table then (if i == index then value else s.entries t i) else s.entries t i;
}

-- `memset(table, 0, PAGE_SIZE)`
unfoldable pub clear_table : ℕ → PageTables → PageTables
clear_table table s = record s { entries = λ t i. if t == table then 0 else s.entries t i }

-- The address that a request gives, as a pointer.
unfoldable pub pointer : Request → ℕ
pointer (address a) = a
pointer null = 0
pointer out_of_fuel = 0

-- The table that an entry leads to, requested if it is not present: the entry, and the state in
-- which it is not stored yet.
unfoldable pub present_entry : ℕ → PageTables → ℕ × PageTables
present_entry value s =
    let requested = request_page s.physical in
    let table = pointer requested.0 in
    if flag present value
    then (value, s)
    else (set_address table value, clear_table table (record s { physical = requested.1 }))

-- One of the three descents of `map`: the next table, and the state.
unfoldable pub enter : ℕ → ℕ → ℕ → PageTables → ℕ × PageTables
enter table index mapping_flags s =
    let (value, s') = present_entry (s.entries table index) s in
    let value' = or_flags passed_flags mapping_flags value in
    (entry_address value', write_entry table index value' s')

-- `map` in the page map at an address.
unfoldable pub map : ℕ → ℕ → ℕ → ℕ → PageTables → PageTables
map root virtual physical mapping_flags s =
    let indexer = page_map_indexer virtual in
    let (pdp, s1) = enter root indexer.page_directory_pointer mapping_flags s in
    let (pd, s2) = enter pdp indexer.page_directory mapping_flags s1 in
    let (pt, s3) = enter pd indexer.page_table mapping_flags s2 in
    let value = set_address physical (s3.entries pt indexer.page) in
    if root == 0
    then s
    else write_entry pt indexer.page (set_flags passed_flags mapping_flags value) s3

-- The rounds of the loop of `map_pages`, as many as there are pages at most.
unfoldable pub map_pages_rounds : ℕ → ℕ → ℕ → ℕ → ℕ → ℕ → PageTables → PageTables
map_pages_rounds zero root virtual physical end mapping_flags s = s
map_pages_rounds (suc n) root virtual physical end mapping_flags s =
    if ltb virtual end
    then map_pages_rounds n root (add64 virtual page_size) (add64 physical page_size) end
        mapping_flags (map root virtual physical mapping_flags s)
    else s

unfoldable pub map_pages : ℕ → ℕ → ℕ → ℕ → ℕ → PageTables → PageTables
map_pages root virtual physical mapping_flags page_count s =
    let end = add64 virtual (page_count * page_size % u64_mod) in
    map_pages_rounds page_count root virtual physical end mapping_flags s

unfoldable pub unmap : ℕ → ℕ → PageTables → PageTables
unmap root virtual s =
    let indexer = page_map_indexer virtual in
    let pdp = entry_address (s.entries root indexer.page_directory_pointer) in
    let pd = entry_address (s.entries pdp indexer.page_directory) in
    let pt = entry_address (s.entries pd indexer.page_table) in
    write_entry pt indexer.page (set_flag present false (s.entries pt indexer.page)) s

unfoldable pub unmap_pages_rounds : ℕ → ℕ → ℕ → ℕ → PageTables → PageTables
unmap_pages_rounds zero root virtual end s = s
unmap_pages_rounds (suc n) root virtual end s =
    if ltb virtual end
    then unmap_pages_rounds n root (add64 virtual page_size) end (unmap root virtual s)
    else s

unfoldable pub unmap_pages : ℕ → ℕ → ℕ → PageTables → PageTables
unmap_pages root virtual page_count s =
    let end = add64 virtual (page_count * page_size % u64_mod) in
    unmap_pages_rounds page_count root virtual end s
