-- ===== src/Syscalls/Mapping/Memory.antt =====
-- What a program can do with the memory that `sys$6_map` gives it, and what `sys$7_unmap` takes back.
use lensor_os.Prelude.{
  ℕ, ◌+◌, ◌*◌, ◌/◌, ◌%◌, ◌^◌, ◌≡◌, ◌∙◌, ◌⊎◌, refl, ap, ap₂, ◌≤◌, ◌<◌, true, not, ◌&&◌, ◌||◌, some,
  List, ◌∷◌, arith, ◌==◌, leb, ltb,
}
use lensor_os.Memory.Physical.{Physical, Request, request_pages, free_pages}
use lensor_os.Memory.Physical.Kept.{request_pages-Keeps}
use lensor_os.Memory.Physical.Invariant.{request_pages-IsSound}
use lensor_os.Memory.Paging.{pointer}
use lensor_os.Memory.Paging.{PageTables, present, flag, map_pages, unmap_pages}
use lensor_os.Memory.Paging.Tree.{Paths, IsTree, Ready}
use lensor_os.Memory.Paging.Translation.{translate}
use lensor_os.Memory.Paging.Runs.{thrice, map_pages-MapsRun}
use lensor_os.Memory.Paging.Unmapping.{UnmapsRun, unmap_pages-map_pages}
use lensor_os.Process.{
  Process, Region, region, valid_address, add_memory_region, remove_first, remove_memory_region,
}
use lensor_os.Process.Memories.{valid_address-add, remove-add}
use lensor_os.Syscalls.Mapping.{
  pages_of, memory_flags, Space, place_at, sys_map, region_at, sys_unmap,
}

-- The allocator after a request of pages leaves the tables a tree.
requested-IsTree :
    (root n : ℕ) (path : Paths) (s : PageTables)
    → IsTree root path s
    → IsTree root path (record s { physical = (request_pages n s.physical).1 })
requested-IsTree root n path s tree =
    let k = request_pages-Keeps s.physical tree.sound n in
    record {
      sound = request_pages-IsSound s.physical tree.sound n;
      narrow = omega (arith, k.total, tree.narrow);
      rooted = tree.rooted;
      child = tree.child;
      held = λ t p e. let (whole, held) = tree.held t p e in (whole, k.locks _ held);
    }

flags_present : flag present memory_flags ≡ true
unfolding flag
flags_present = refl

-- What a call of `sys$6_map` promises.
pub record MapsMemory (size paddr : ℕ) (s : Space) (r : ℕ × Space) : Type 0 where
  pub pages :
      (j : ℕ)
      → j < pages_of size
      → translate r.1.tables s.process.cr3 (r.0 + j * 4096) ≡ some (paddr + j * 4096)
  pub others :
      (w : ℕ)
      → (w / 4096 % 2 ^ 36 < r.0 / 4096) ⊎ (r.0 / 4096 + pages_of size ≤ w / 4096 % 2 ^ 36)
      → translate r.1.tables s.process.cr3 w ≡ translate s.tables s.process.cr3 w
  pub accepted :
      (a : ℕ)
      → valid_address a r.1.process
        ≡ ((not (a == 0) && (leb r.0 a && ltb a (r.0 + size))) || valid_address a s.process)

placed-cr3 : (a n : ℕ) (p : Process) → (place_at a n p).1.cr3 ≡ p.cr3
unfolding place_at
placed-cr3 a n p = ground arith

placed-memories : (a n : ℕ) (p : Process) → (place_at a n p).1.memories ≡ p.memories
unfolding place_at
placed-memories a n p = ground arith

module _ (addr size : ℕ) (s : Space) (path : Paths) where
  abbrev placed : ℕ
  placed = (place_at addr (pages_of size) s.process).0

  abbrev asked : Request × Physical
  asked = request_pages (pages_of size) s.tables.physical

  given : Space
  given = record {
    process = add_memory_region placed (pointer asked.0) size memory_flags s.process;
    tables =
        map_pages s.process.cr3 placed (pointer asked.0) memory_flags (pages_of size)
          (record s.tables { physical = asked.1 });
  }

  sys_map_address : (sys_map addr size s).0 ≡ placed
  unfolding sys_map
  sys_map_address = refl

  sys_map_tables : (sys_map addr size s).1.tables ≡ given.tables
  unfolding sys_map add_memory_region given
  sys_map_tables =
      ap
        (λ (c : ℕ).
          map_pages c placed (pointer asked.0) memory_flags (pages_of size)
            (record s.tables { physical = asked.1 }))
        (placed-cr3 addr (pages_of size) s.process)

  sys_map_regions : (sys_map addr size s).1.process.memories ≡ given.process.memories
  unfolding sys_map add_memory_region given
  sys_map_regions =
      ap (λ (rs : List Region). region placed (pointer asked.0) size memory_flags ∷ rs)
        (placed-memories addr (pages_of size) s.process)

  valid_by_regions :
      (a : ℕ) (p q : Process) → p.memories ≡ q.memories → valid_address a p ≡ valid_address a q
  unfolding valid_address
  valid_by_regions a p q e = rw e refl

  module _ (tree : IsTree s.process.cr3 path s.tables) (root : 0 < s.process.cr3)
      (whole : placed % 4096 ≡ 0) (low : placed + pages_of size * 4096 ≤ 2 ^ 48)
      (frame : pointer asked.0 % 4096 ≡ 0)
      (memory : pointer asked.0 + pages_of size * 4096 ≤ 2 ^ 52)
      (ready : Ready (thrice (pages_of size)) asked.1) where
    -- In page tables that form a tree, for a size in bytes whose pages end below 2^48 from a whole page
    -- on, when the pages requested are there and three more for each of them, sys$6_map makes each of
    -- its pages translate to the page of the physical run with the same number, leaves the
    -- translation of every other page, and makes exactly the addresses of its bytes valid to the
    -- process besides those that were.
    pub sys_map-MapsMemory : MapsMemory size (pointer asked.0) s (sys_map addr size s)
    unfolding given sys_map place_at
    sys_map-MapsMemory =
        let (run, _) =
          map_pages-MapsRun (pages_of size) s.process.cr3 path
            (record s.tables { physical = asked.1 }) placed (pointer asked.0) memory_flags
            (requested-IsTree s.process.cr3 (pages_of size) path s.tables tree) root whole low frame
            memory flags_present ready in
        record {
          pages = λ j b. rw (sys_map_tables, sys_map_address) (run.to j b);
          others = λ w off. rw sys_map_tables (run.others w (rw sys_map_address at off));
          accepted = λ a.
              valid_by_regions a _ _ sys_map_regions
              ∙ valid_address-add a placed (pointer asked.0) size memory_flags s.process
                  (ground (arith, low));
        }

    after : Space
    after = (sys_map addr size s).1

    given_region : Region
    given_region = region placed (pointer asked.0) size memory_flags

    region_found : region_at placed after.process.memories ≡ some given_region
    unfolding after given given_region region_at add_memory_region region
    region_found = rw sys_map_regions (ground arith)

    -- What `sys$7_unmap` makes of the tables, in the page map at an address.
    taken_back : ℕ → PageTables → PageTables
    taken_back c t =
        let t' = unmap_pages c placed (pages_of size) t in
        record t' { physical = free_pages (pointer asked.0) (pages_of size) t'.physical }

    unmapped_tables : (sys_unmap placed after).tables ≡ taken_back after.process.cr3 after.tables
    unfolding sys_unmap taken_back given_region region
    unmapped_tables = rw (sys_unmap, region_found) refl

    unmapped_regions :
        (sys_unmap placed after).process.memories
        ≡ (remove_memory_region placed after.process).memories
    unfolding sys_unmap
    unmapped_regions = rw (sys_unmap, region_found) refl

    unmapped-taken_back : (sys_unmap placed after).tables ≡ taken_back s.process.cr3 given.tables
    unfolding after sys_map add_memory_region
    unmapped-taken_back =
        unmapped_tables ∙ ap₂ taken_back (placed-cr3 addr (pages_of size) s.process) sys_map_tables

    gone_again :
        UnmapsRun s.process.cr3
          (pages_of size)
          s.tables
          placed
          (taken_back s.process.cr3 given.tables)
    unfolding taken_back given
    gone_again =
        let run =
          unmap_pages-map_pages (pages_of size) s.process.cr3 path
            (record s.tables { physical = asked.1 }) placed (pointer asked.0) memory_flags
            (requested-IsTree s.process.cr3 (pages_of size) path s.tables tree) root whole low frame
            memory flags_present ready in
        record { gone = run.gone; others = run.others }

    regions_again : (sys_unmap placed after).process.memories ≡ s.process.memories
    unfolding after given remove_memory_region
    regions_again =
        unmapped_regions
        ∙ ap (remove_first placed) sys_map_regions
        ∙ ap (λ (p : Process). p.memories)
            (remove-add placed (pointer asked.0) size memory_flags s.process)

    -- Under the conditions on sys$6_map, sys$7_unmap of the address that it returned gives the process
    -- the regions that it had before; none of the pages is translated at its start, and every other
    -- page translates as before both calls.
    pub sys_unmap-sys_map :
        let (a, s1) = sys_map addr size s in
        let s2 = sys_unmap a s1 in
        (s2.process.memories ≡ s.process.memories)
        × UnmapsRun s.process.cr3 (pages_of size) s.tables a s2.tables
    unfolding sys_map place_at after
    sys_unmap-sys_map = (regions_again, rw unmapped-taken_back gone_again)
