-- ===== src/Memory/Heap/Malloc.antt =====
-- `malloc`, kernel/src/memory/heap.cpp, against the allocator on lists of segments that it
-- implements: first fit, with at most two expansions.
use lensor_os.Prelude.{
  ℕ, zero, suc, ◌+◌, ◌-◌, ◌*◌, ◌/◌, ◌≡◌, ◌∙◌, refl, sym, subst, ◌≤◌, ◌<◌, true, false, Option, none,
  some, List, [], ◌∷◌, arith, ◌==◌, length, Bool-cases, inl, inr,
}
use lensor_os.Prelude.Words.{u64_mod}
use lensor_os.Memory.Physical.{page_size}
use lensor_os.Memory.Heap.Granted.{grants, table_pages, expansion_requests}
use lensor_os.Memory.Heap.{
  Heap, heap_virtual_base, header_size, heap_byte_align, expansion, expand_heap, round_up, Search,
  taken, missed, no_fuel, search, malloc_rounds, and_then,
}
use lensor_os.Memory.Heap.Chain.{Segment, after, past}
use lensor_os.Memory.Heap.Sound.{Sound}
use lensor_os.Memory.Heap.FirstFit.{first_fit, Finds, search-first_fit}
use lensor_os.Memory.Heap.Expand.{grow, past-grow, Expanded, expand_heap-Expanded}

-- The allocator on lists of segments: the first fit, or that of the grown list; the first argument
-- bounds how often it looks.
abbrev pub allocate_segments : ℕ → ℕ → List Segment → Option (ℕ × List Segment)
allocate_segments zero n segs = none
allocate_segments (suc rounds) n segs =
    let again = allocate_segments rounds n (grow (expansion n) segs) in
    elim (first_fit n heap_virtual_base segs) [ none ↦ again | some found ↦ some found ]

-- The heap answers as the list does, and is laid out as that afterwards.
abbrev pub Implements : Option (ℕ × List Segment) → Option (ℕ × Heap) → Type 0
Implements none o = o ≡ none
Implements (some (p, segs)) o = (h : Heap) × (o ≡ some (p, h)) × Sound h segs

length-past : (a : ℕ) (segs : List Segment) → a + length segs ≤ past a segs
length-past a [] = omega arith
length-past a (s ∷ rest) = ground (arith, length-past (after a s) rest)

-- The search from the start of the heap, with the heap's bytes as fuel.
whole_search :
    (n : ℕ) (h : Heap) (segs : List Segment)
    → Sound h segs
    → heap_byte_align ≤ n
    → Finds
        (first_fit n heap_virtual_base segs)
        []
        (search (h.heap_end - h.heap_start) n h.heap_start h)
whole_search n h [] v wide = absurd (omega (arith, v.populated, v.ends, v.start))
whole_search n h (s ∷ ys) v wide =
    let enough = length-past heap_virtual_base (s ∷ ys) in
    subst
      (λ (b : ℕ). Finds (first_fit n heap_virtual_base (s ∷ ys)) [] (search (h.heap_end - b) n b h))
      (sym v.start)
      (search-first_fit (h.heap_end - heap_virtual_base) n h [] s ys v wide
        (omega (arith, enough, v.ends)))

-- Enough pages are granted for so many expansions.
abbrev pub Granted : ℕ → ℕ → Heap → Type 0
Granted rounds n h = grants (rounds * expansion_requests n h) h.tables.physical ≡ true

grown-Expanded :
    (n k : ℕ) (h : Heap) (segs : List Segment)
    → grants (expansion_requests n h + k) h.tables.physical ≡ true
    → header_size ≤ expansion n
    → h.heap_end + expansion n < u64_mod
    → Sound h segs
    → Expanded k h (grow (expansion n) segs) (expand_heap n h)
grown-Expanded n k h [] g wide fits v = absurd (omega (arith, v.populated, v.ends, v.start))
grown-Expanded n k h (s ∷ ys) g wide fits v = expand_heap-Expanded n k h [] s ys g wide fits v

grown_end :
    (n : ℕ) (h h' : Heap) (segs : List Segment) (rounds : ℕ)
    → header_size ≤ expansion n
    → h.heap_end + suc rounds * expansion n < u64_mod
    → Sound h segs
    → Sound h' (grow (expansion n) segs)
    → h'.heap_end + rounds * expansion n < u64_mod
grown_end n h h' [] rounds wide fits v v' = absurd (omega (arith, v.populated, v.ends, v.start))
grown_end n h h' (s ∷ ys) rounds wide fits v v' =
    let longer = past-grow (expansion n) heap_virtual_base s ys wide in
    omega (arith, v'.ends, v.ends, longer)

malloc_call :
    (rounds n : ℕ) (h : Heap)
    → (n == 0) ≡ false
    → malloc_rounds (suc rounds) n h
      ≡ elim (search (h.heap_end - h.heap_start) (round_up n) h.heap_start h) [
        | taken payload h' ↦ some (payload, h')
        | missed ↦ and_then (malloc_rounds rounds (round_up n)) (expand_heap (round_up n) h)
        | no_fuel ↦ none
      ]
unfolding malloc_rounds
malloc_call rounds n h t = rw (malloc_rounds, t) refl

-- One call of `malloc`, by how the search ends.
malloc_step :
    (rounds n m : ℕ) (h : Heap)
    → 0 < n
    → round_up n ≡ m
    → malloc_rounds (suc rounds) n h ≡ elim (search (h.heap_end - h.heap_start) m h.heap_start h) [
      | taken payload h' ↦ some (payload, h')
      | missed ↦ and_then (malloc_rounds rounds m) (expand_heap m h)
      | no_fuel ↦ none
    ]
malloc_step rounds n m h p e =
    let Steps = λ (k : ℕ).
      malloc_rounds (suc rounds) n h ≡ elim (search (h.heap_end - h.heap_start) k h.heap_start h) [
        | taken payload h' ↦ some (payload, h')
        | missed ↦ and_then (malloc_rounds rounds k) (expand_heap k h)
        | no_fuel ↦ none
      ] in
    subst Steps e (malloc_call rounds n h (ground arith))

malloc_nothing :
    (rounds n : ℕ) (h : Heap) → (n == 0) ≡ true → malloc_rounds (suc rounds) n h ≡ some (0, h)
unfolding malloc_rounds
malloc_nothing rounds n h z = rw (malloc_rounds, z) refl

malloc_stops : (n : ℕ) (h : Heap) → malloc_rounds zero n h ≡ none
unfolding malloc_rounds
malloc_stops n h = refl

and_then_stops : (n : ℕ) (o : Option Heap) → and_then (malloc_rounds zero n) o ≡ none
and_then_stops n none = refl
and_then_stops n (some h) = malloc_stops n h

Finds-Implements :
    (o : Option (ℕ × List Segment)) (r : Search) (other : Option (ℕ × Heap))
    (list : Option (ℕ × List Segment))
    → Finds o [] r
    → (o ≡ none → Implements list other)
    → Implements
        (elim o [ none ↦ list | some found ↦ some found ])
        (elim r [ taken payload h' ↦ some (payload, h') | missed ↦ other | no_fuel ↦ none ])
Finds-Implements none r other list e next = rw e (next refl)
Finds-Implements (some (p, segs)) r other list (h', e, v) next = rw e (h', refl, v)

pub malloc_rounds-allocate_segments :
    (rounds n m : ℕ) (h : Heap) (segs : List Segment)
    → 0 < n
    → round_up n ≡ m
    → round_up m ≡ m
    → heap_byte_align ≤ m
    → header_size ≤ expansion m
    → h.heap_end + rounds * expansion m < u64_mod
    → Granted rounds m h
    → Sound h segs
    → Implements (allocate_segments (suc rounds) m segs) (malloc_rounds (suc rounds) n h)
malloc_rounds-allocate_segments zero n m h segs p e e' wide large fits g v =
    rw (malloc_step zero n m h p e) (
      Finds-Implements (first_fit m heap_virtual_base segs) _ _ none (whole_search m h segs v wide)
        (λ _. and_then_stops m (expand_heap m h)))
malloc_rounds-allocate_segments (suc rounds) n m h segs p e e' wide large fits g v =
    let x =
      grown-Expanded m (rounds * expansion_requests m h) h segs
        (subst (λ c. grants c h.tables.physical ≡ true) (omega arith) g) large (omega arith) v in
    let room : x.heap.heap_end + rounds * expansion m < u64_mod =
      grown_end m h x.heap segs rounds large fits v x.sound in
    let g' : Granted rounds m x.heap =
      subst
        (λ maps.
          grants (rounds * (expansion m / page_size * (4 + table_pages maps)))
            x.heap.tables.physical
          ≡ true)
        (sym x.maps) x.left in
    rw (malloc_step (suc rounds) n m h p e) (
      Finds-Implements (first_fit m heap_virtual_base segs) _ _ _ (whole_search m h segs v wide)
        (λ _.
          subst
            (λ o.
              Implements (allocate_segments (suc rounds) m (grow (expansion m) segs))
                (and_then (malloc_rounds (suc rounds) m) o))
            (sym x.done)
            (malloc_rounds-allocate_segments rounds m m x.heap _ (omega arith) e' e' wide large room
              g' x.sound)))

call_more :
    (r : Search) (o o' : Option (ℕ × Heap)) (x : ℕ × Heap)
    → (o ≡ some x → o' ≡ some x)
    → elim r [ taken payload h ↦ some (payload, h) | missed ↦ o | no_fuel ↦ none ] ≡ some x
    → elim r [ taken payload h ↦ some (payload, h) | missed ↦ o' | no_fuel ↦ none ] ≡ some x
call_more (taken payload h) o o' x more e = e
call_more missed o o' x more e = more e
call_more no_fuel o o' x more e = e

and_then_more :
    (f g : Heap → Option (ℕ × Heap)) (o : Option Heap) (x : ℕ × Heap)
    → ((h : Heap) → f h ≡ some x → g h ≡ some x)
    → and_then f o ≡ some x
    → and_then g o ≡ some x
and_then_more f g none x more e = e
and_then_more f g (some h) x more e = more h e

-- An answer stays the same with more calls allowed.
malloc_rounds_more :
    (rounds n : ℕ) (h : Heap) (x : ℕ × Heap)
    → malloc_rounds rounds n h ≡ some x
    → malloc_rounds (suc rounds) n h ≡ some x
malloc_rounds_more zero n h x e = absurd (ground (arith, e, malloc_stops n h))
malloc_rounds_more (suc rounds) n h x e = elim (Bool-cases (n == 0)) [
  | inl z ↦ malloc_nothing (suc rounds) n h z ∙ sym (malloc_nothing rounds n h z) ∙ e
  | inr nz ↦
      malloc_call (suc rounds) n h nz
      ∙ call_more (search (h.heap_end - h.heap_start) (round_up n) h.heap_start h)
          (and_then (malloc_rounds rounds (round_up n)) (expand_heap (round_up n) h))
          (and_then (malloc_rounds (suc rounds) (round_up n)) (expand_heap (round_up n) h)) x
          (and_then_more (malloc_rounds rounds (round_up n))
            (malloc_rounds (suc rounds) (round_up n)) (expand_heap (round_up n) h) x
            (λ h' e'. malloc_rounds_more rounds (round_up n) h' x e'))
          (sym (malloc_call rounds n h nz) ∙ e)
]

pub malloc_rounds_any :
    (k rounds n : ℕ) (h : Heap) (x : ℕ × Heap)
    → malloc_rounds rounds n h ≡ some x
    → malloc_rounds (k + rounds) n h ≡ some x
malloc_rounds_any zero rounds n h x e = let z : 0 + rounds ≡ rounds = omega arith in rw z e
malloc_rounds_any (suc k) rounds n h x e =
    let s : suc k + rounds ≡ suc (k + rounds) = omega arith in
    rw s (malloc_rounds_more (k + rounds) n h x (malloc_rounds_any k rounds n h x e))
