-- ===== src/Memory/Heap/FirstFit.antt =====
-- The search of `malloc`, kernel/src/memory/heap.cpp, against the first fit in a list of segments.
use lensor_os.Prelude.{
  ℕ, zero, suc, ◌+◌, ◌-◌, ◌≡◌, refl, sym, ◌≤◌, ◌<◌, true, false, Bool, Option, none, some, List, [],
  ◌∷◌, ◌++◌, arith, if◌then◌else◌, ◌==◌, ltb, leb, ◌&&◌, ◌||◌, length, append_assoc, Bool-cases,
  inl, inr,
}
use lensor_os.Prelude.Words.{add64}
use lensor_os.Memory.Heap.{
  Heap, heap_virtual_base, header_size, heap_byte_align, mark, insert_header, Search, taken, missed,
  search,
}
use lensor_os.Memory.Heap.Chain.{Segment, after, following, past-append}
use lensor_os.Memory.Heap.Sound.{Sound, place, header_lem, room}
use lensor_os.Memory.Heap.Split.{
  front_part, rest_of, mark-Sound, insert-Sound, split-Sound, split_refused,
}

-- A free segment serves a request if it has the very length, or room for a header and a payload
-- besides.
abbrev pub suits : ℕ → Segment → Bool
suits n s = s.free && ((s.length == n) || leb (n + 48) s.length)

abbrev pub carve : ℕ → Segment → List Segment
carve n s =
    if s.length == n
    then record s { free = false } ∷ []
    else record { length = n; free = false } ∷ rest_of n s ∷ []

-- The allocator that the search implements: the first segment that serves the request is carved,
-- and its payload is the answer.
abbrev pub first_fit : ℕ → ℕ → List Segment → Option (ℕ × List Segment)
first_fit n a [] = none
first_fit n a (s ∷ rest) =
    if suits n s
    then some (a + header_size, carve n s ++ rest)
    else elim (first_fit n (after a s) rest) [ none ↦ none | some (p, segs) ↦ some (p, s ∷ segs) ]

-- How the loop goes on after a segment.
abbrev onwards : ℕ → ℕ → Heap → ℕ → List Segment → Search
onwards fuel n h next ys = elim (following next ys none) [
  | none ↦ missed
  | some a ↦ search fuel n a h
]

module _ (fuel n : ℕ) (h : Heap) (xs : List Segment) (s : Segment) (ys : List Segment)
    (v : Sound h (xs ++ (s ∷ ys))) (wide : heap_byte_align ≤ n) where
  payload_lem : add64 (place xs) header_size ≡ place xs + header_size
  payload_lem = omega (arith, room h xs s ys v, v.small)

  search_exact :
      s.free ≡ true
      → s.length ≡ n
      → search (suc fuel) n (place xs) h ≡ taken (place xs + header_size) (mark (place xs) false h)
  unfolding search
  search_exact f e =
      let t1 : ltb n s.length ≡ false = ground arith in
      let t2 : (s.length == n) ≡ true = ground arith in
      rw (search, header_lem h xs s ys v, f, t1, t2, payload_lem) refl

  search_splits :
      s.free ≡ true
      → n + 48 ≤ s.length
      → search (suc fuel) n (place xs) h
        ≡ taken
            (place xs + header_size)
            (mark (place xs) false (insert_header (place xs) n (s.length - n - header_size) h))
  unfolding search
  search_splits f fits =
      let t1 : ltb n s.length ≡ true = ground arith in
      rw (search, header_lem h xs s ys v, f, t1, split-Sound n h xs s wide fits ys v, payload_lem)
        refl

  search_skips :
      suits n s ≡ false
      → search (suc fuel) n (place xs) h ≡ onwards fuel n h (after (place xs) s) ys
  unfolding search
  search_skips out = elim (Bool-cases s.free) [
    | inl f ↦ elim (Bool-cases (ltb n s.length)) [
      | inl l ↦
          rw
            (
              search,
              header_lem h xs s ys v,
              f,
              l,
              split_refused n h xs s ys v (ground arith) (ground arith),
              header_lem h xs s ys v,
            )
            refl
      | inr l ↦
          let t : (s.length == n) ≡ false = ground arith in
          rw (search, header_lem h xs s ys v, f, l, t) refl
    ]
    | inr f ↦ rw (search, header_lem h xs s ys v, f) refl
  ]

-- The search answers as the first fit does, and leaves the heap laid out as that says.
abbrev pub Finds : Option (ℕ × List Segment) → List Segment → Search → Type 0
Finds none xs r = r ≡ missed
Finds (some (p, segs)) xs r = (h' : Heap) × (r ≡ taken p h') × Sound h' (xs ++ segs)

Finds-skip :
    (o : Option (ℕ × List Segment)) (xs : List Segment) (s : Segment) (r : Search)
    → Finds o (xs ++ (s ∷ [])) r
    → Finds (elim o [ none ↦ none | some (p, segs) ↦ some (p, s ∷ segs) ]) xs r
Finds-skip none xs s r f = f
Finds-skip (some (p, segs)) xs s r (h', e, v) = (h', e, rw (append_assoc xs (s ∷ []) segs) at v)

Finds-carve :
    (fuel n : ℕ) (h : Heap) (xs : List Segment) (s : Segment) (ys : List Segment)
    → Sound h (xs ++ (s ∷ ys))
    → heap_byte_align ≤ n
    → suits n s ≡ true
    → Finds (some (place xs + header_size, carve n s ++ ys)) xs (search (suc fuel) n (place xs) h)
Finds-carve fuel n h xs s ys v wide fit = elim (Bool-cases (s.length == n)) [
  | inl e ↦ (
    mark (place xs) false h,
    search_exact fuel n h xs s ys v wide (ground arith) (ground arith),
    rw e (mark-Sound h xs s false ys v),
  )
  | inr e ↦ (
    _,
    search_splits fuel n h xs s ys v wide (ground arith) (ground arith),
    rw e (
        mark-Sound _ xs (front_part n s) false (rest_of n s ∷ ys)
          (insert-Sound n h xs s wide (ground arith) ys v)),
  )
]

-- With fuel for every segment the search finds what the first fit does.
pub search-first_fit :
    (fuel n : ℕ) (h : Heap) (xs : List Segment) (s : Segment) (ys : List Segment)
    → Sound h (xs ++ (s ∷ ys))
    → heap_byte_align ≤ n
    → length ys < fuel
    → Finds (first_fit n (place xs) (s ∷ ys)) xs (search fuel n (place xs) h)
search-first_fit zero n h xs s ys v wide enough = absurd (omega arith)
search-first_fit (suc fuel) n h xs s [] v wide enough = elim (Bool-cases (suits n s)) [
  | inl fit ↦ rw fit (Finds-carve fuel n h xs s [] v wide fit)
  | inr unfit ↦ rw (unfit, search_skips fuel n h xs s [] v wide unfit) refl
]
search-first_fit (suc fuel) n h xs s (y ∷ ys) v wide enough =
    let v' = rw (sym (append_assoc xs (s ∷ []) (y ∷ ys))) at v in
    let later = search-first_fit fuel n h (xs ++ (s ∷ [])) y ys v' wide (omega arith) in
    elim (Bool-cases (suits n s)) [
      | inl fit ↦ rw fit (Finds-carve fuel n h xs s (y ∷ ys) v wide fit)
      | inr unfit ↦
          rw (unfit, search_skips fuel n h xs s (y ∷ ys) v wide unfit)
            (Finds-skip (first_fit n (after (place xs) s) (y ∷ ys)) xs s _
              (rw (past-append heap_virtual_base xs (s ∷ [])) at later))
    ]
