-- ===== src/Memory/Heap/Contract.antt =====
-- What `init_heap`, `malloc` and `free`, kernel/src/memory/heap.cpp, promise to their callers.
use lensor_os.Prelude.{
  ℕ, ◌+◌, ◌-◌, ◌*◌, ◌/◌, ◌≡◌, ◌≢◌, ◌≤◌, ◌<◌, none, some, List, [], ◌∷◌, arith, Option-cases, inl,
  inr,
}
use lensor_os.Prelude.Words.{u64_mod}
use lensor_os.Memory.Heap.{
  Heap, heap_virtual_base, header_size, expansion, round_up, malloc, malloc_rounds,
}
use lensor_os.Memory.Heap.Chain.{Segment}
use lensor_os.Memory.Heap.Sound.{Sound}
use lensor_os.Memory.Heap.Expand.{grow}
use lensor_os.Memory.Heap.Growth.{grow-ends_free, grow-longer, first_fit-ends_free}
use lensor_os.Memory.Heap.Malloc.{
  allocate_segments, Implements, Granted, malloc_rounds-allocate_segments, malloc_rounds_any,
}
use lensor_os.Memory.Heap.Live.{live, Added, allocate_segments-Grants}

-- The next multiple of the alignment.
abbrev pub rounded : ℕ → ℕ
rounded n = (n + 15) / 16 * 16

allocate_some :
    (m : ℕ) (h : Heap) (segs : List Segment)
    → m + 1 ≤ expansion m
    → 4096 ≤ expansion m
    → Sound h segs
    → allocate_segments 3 m segs ≢ none
allocate_some m h [] more page v e = absurd (omega (arith, v.populated, v.ends, v.start))
allocate_some m h (s ∷ ys) more page v e =
    let bytes = expansion m in
    let once = grow-ends_free bytes s ys in
    let twice = grow-longer bytes (bytes - header_size) (grow bytes (s ∷ ys)) (omega arith) once in
    let third =
      first_fit-ends_free m heap_virtual_base (bytes - header_size + bytes)
        (grow bytes (grow bytes (s ∷ ys))) (omega arith) twice in
    ground (arith, third, e)

module _ (n : ℕ) (h : Heap) (segs : List Segment) (asked : 0 < n)
    (fits : h.heap_end + 2 * (n + 4112) < u64_mod) (granted : Granted 2 (rounded n) h) where
  round_up_lem : round_up n ≡ rounded n
  unfolding round_up
  round_up_lem = ground arith

  round_up_again : round_up (rounded n) ≡ rounded n
  unfolding round_up
  round_up_again = ground arith

  expansion_more : rounded n + 1 ≤ expansion (rounded n)
  expansion_more = omega arith

  expansion_page : 4096 ≤ expansion (rounded n)
  expansion_page = omega arith

  expansion_less : expansion (rounded n) ≤ n + 4112
  expansion_less = omega arith

  -- When there is room for two expansions below the end of the address space, and the allocator grants
  -- the pages that two expansions take, tables included, malloc of a positive number of bytes in a
  -- sound heap gives the address that the first fit of the number, rounded up to the
  -- alignment, gives in the list of the heap's segments, grown when none fits; and the headers are
  -- laid out as the list is then, linked both ways, with the globals at its ends.
  pub malloc-allocate_segments :
      Sound h segs → Implements (allocate_segments 3 (rounded n) segs) (malloc n h)
  unfolding malloc
  malloc-allocate_segments v =
      malloc_rounds-allocate_segments 2 n (rounded n) h segs asked round_up_lem round_up_again
        (omega arith) (omega (arith, expansion_page)) (omega (arith, expansion_less)) granted v

  found_some :
      (v : Sound h segs)
      → (p : ℕ) × (segs' : List Segment) × (allocate_segments 3 (rounded n) segs ≡ some (p, segs'))
  found_some v = elim (Option-cases (allocate_segments 3 (rounded n) segs)) [
    | inl e ↦ absurd (allocate_some (rounded n) h segs expansion_more expansion_page v e)
    | inr ((p, segs'), e) ↦ (p, segs', e)
  ]

  -- When there is room for two expansions below the end of the address space, and the allocator grants
  -- the pages that two expansions take, tables included, malloc of a positive number of bytes in a
  -- sound heap returns: an address of a block that was in no use and
  -- has the length asked for, rounded up to the alignment, in a heap that is sound and in which
  -- every other block in use is where it was, with the length it had.
  pub malloc-Added :
      Sound h segs
      → (p : ℕ) × (h' : Heap) × (segs' : List Segment) × (malloc n h ≡ some (p, h'))
        × Sound h' segs'
        × Added p (rounded n) (live heap_virtual_base segs) (live heap_virtual_base segs')
  malloc-Added v =
      let (p, segs', e) = found_some v in
      let (h', e', v') = rw e at (malloc-allocate_segments v) in
      (p, h', segs', e', v', rw e at (allocate_segments-Grants 3 (rounded n) segs))

-- When there is room for two expansions below the end of the address space, and the allocator grants
-- the pages that two expansions take, tables included, malloc of a positive number of bytes in a sound heap returns after at most two calls of itself, and the answer is the
-- same whatever larger number of calls is allowed.
pub malloc_answers :
    (n : ℕ) (h : Heap) (segs : List Segment) (k : ℕ)
    → 0 < n
    → h.heap_end + 2 * (n + 4112) < u64_mod
    → Granted 2 (rounded n) h
    → Sound h segs
    → (x : ℕ × Heap) × (malloc n h ≡ some x) × (malloc_rounds (k + 3) n h ≡ some x)
unfolding malloc
malloc_answers n h segs k asked fits granted v =
    let (p, h', _, e, _, _) = malloc-Added n h segs asked fits granted v in
    ((p, h'), e, malloc_rounds_any k 3 n h (p, h') e)
