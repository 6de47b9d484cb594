-- ===== src/Memory/Heap/Examples.antt =====
-- The heap as it starts, and requests of it.
use lensor_os.Prelude.{
  ℕ, ◌+◌, ◌*◌, ◌≡◌, ◌<◌, refl, sym, subst, true, false, none, some, List, [], ◌∷◌, arith,
}
use lensor_os.Prelude.Words.{u64_mod}
use lensor_os.Memory.Physical.{Physical}
use lensor_os.Memory.Physical.Invariant
use lensor_os.Memory.Physical.Locks.{locked}
use lensor_os.Memory.Heap.Supply.{free_in, free_in-grants}
use lensor_os.Memory.Bitmap.{get, test_bit, bit_indexer}
use lensor_os.Memory.Heap.Granted.{grants, grants_below, init_heap-grants}
use lensor_os.Memory.Heap.{
  Heap, heap_virtual_base, init_heap, malloc, malloc_rounds, free, aligned_new, aligned_delete,
}
use lensor_os.Memory.Heap.Chain.{Segment}
use lensor_os.Memory.Heap.Sound.{Sound}
use lensor_os.Memory.Heap.Expand.{init_heap-Sound}
use lensor_os.Memory.Heap.Malloc.{allocate_segments, Implements, Granted}
use lensor_os.Memory.Heap.Live.{live, Added}
use lensor_os.Memory.Heap.Free.{free-Added}
use lensor_os.Memory.Heap.Contract.{rounded, malloc-allocate_segments, malloc-Added, malloc_answers}
use lensor_os.Memory.Heap.Aligned.{Aligned, aligned_new-Aligned, aligned_new-aligned_delete}

-- 64 pages, of which the first is locked.
abbrev pages : Physical
pages = record {
  page_map = record { size = 8; buffer = 128 ∷ 0 ∷ 0 ∷ 0 ∷ 0 ∷ 0 ∷ 0 ∷ 0 ∷ [] };
  total_pages = 64;
  total_free_pages = 63;
  total_used_pages = 1;
  max_free_pages_in_a_row = 63;
  first_free_page = 1;
}

abbrev blank : Heap
blank = record {
  headers = λ _. record { last = none; next = none; length = 0; free = false };
  words = λ _. 0;
  heap_start = 0;
  heap_end = 0;
  last_header = none;
  tables = record { physical = pages; entries = λ t i. 0 };
  page_maps = 8192 * 4096 ∷ [];
  active = 8193 * 4096;
}

abbrev booted : Heap
booted = init_heap blank

abbrev segments : List Segment
segments = record { length = 4064; free = true } ∷ []

booted_end : booted.heap_end ≡ heap_virtual_base + 4096
unfolding init_heap
booted_end = refl

booted_room : booted.heap_end + 2 * 10000 < u64_mod
booted_room = omega (arith, booted_end)

booted-Sound : Sound booted segments
booted-Sound = init_heap-Sound blank

first_page_locked : locked pages 0 ≡ true
unfolding get test_bit bit_indexer
first_page_locked = refl

pages-IsSound : Invariant.IsSound pages
pages-IsSound = record {
  valid = record {
    sized = refl;
    bytes = (
      omega arith,
      (
        omega arith,
        (
          omega arith,
          (omega arith, (omega arith, (omega arith, (omega arith, (omega arith, tt))))),
        ),
      ),
    );
  };
  mapped = omega arith;
  fits = omega arith;
  hint = λ j h.
      let e : j ≡ 0 = omega arith in subst (λ i. locked pages i ≡ true) (sym e) first_page_locked;
}

pages_left : free_in 64 pages ≡ 63
unfolding get test_bit bit_indexer
pages_left = refl

free_in-grants_example : grants 32 pages ≡ true
free_in-grants_example =
    free_in-grants 32 pages pages-IsSound first_page_locked (omega (arith, pages_left))

booted_grants : grants 28 booted.tables.physical ≡ true
booted_grants =
    init_heap-grants 28 blank
      (free_in-grants 32 pages pages-IsSound first_page_locked (omega (arith, pages_left)))

one_page : Granted 2 (rounded 100) booted
unfolding init_heap
one_page = grants_below 28 14 booted.tables.physical booted_grants (omega arith)

two_pages : Granted 2 (rounded 5000) booted
unfolding init_heap
two_pages = booted_grants

malloc-allocate_example :
    Implements (allocate_segments 3 (rounded 100) segments) (malloc 100 booted)
malloc-allocate_example =
    malloc-allocate_segments 100 booted segments (omega arith) (omega (arith, booted_room)) one_page
      booted-Sound

malloc-Added_example :
    (p : ℕ) × (h' : Heap) × (segs' : List Segment) × (malloc 5000 booted ≡ some (p, h'))
    × Sound h' segs'
    × Added p (rounded 5000) (live heap_virtual_base segments) (live heap_virtual_base segs')
malloc-Added_example =
    malloc-Added 5000 booted segments (omega arith) (omega (arith, booted_room)) two_pages
      booted-Sound

malloc_answers_example :
    (x : ℕ × Heap) × (malloc 4080 booted ≡ some x) × (malloc_rounds (10 + 3) 4080 booted ≡ some x)
malloc_answers_example =
    malloc_answers 4080 booted segments 10 (omega arith) (omega (arith, booted_room)) one_page
      booted-Sound

-- The heap after a block of 112 bytes was handed out.
abbrev grant :
    (p : ℕ) × (h' : Heap) × (segs' : List Segment) × (malloc 100 booted ≡ some (p, h'))
    × Sound h' segs'
    × Added p (rounded 100) (live heap_virtual_base segments) (live heap_virtual_base segs')
grant =
    malloc-Added 100 booted segments (omega arith) (omega (arith, booted_room)) one_page
      booted-Sound

free-Added_example :
    (segs' : List Segment) × Sound (free grant.0 grant.1) segs'
    × (live heap_virtual_base segs' ≡ live heap_virtual_base segments)
free-Added_example =
    free-Added grant.0 (rounded 100) grant.1 grant.2 (live heap_virtual_base segments) grant.4
      grant.5

aligned_new-Aligned_example :
    (q : ℕ) × (h' : Heap) × (aligned_new 100 64 booted ≡ some (q, h'))
    × Aligned 100 64 segments q h'
aligned_new-Aligned_example =
    aligned_new-Aligned 100 64 booted segments (omega arith) (omega (arith, booted_room)) one_page
      booted-Sound

aligned_new-aligned_delete_example :
    (q : ℕ) × (h' : Heap) × (segs' : List Segment) × (aligned_new 100 64 booted ≡ some (q, h'))
    × Sound (aligned_delete q 64 h') segs'
    × (live heap_virtual_base segs' ≡ live heap_virtual_base segments)
aligned_new-aligned_delete_example =
    aligned_new-aligned_delete 100 64 booted segments (omega arith) (omega (arith, booted_room))
      one_page booted-Sound
