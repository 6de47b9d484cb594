-- ===== src/Memory/Heap/Live.antt =====
-- What the users of the heap of kernel/src/memory/heap.cpp see: the blocks in use, by address and
-- length, and what the operations on lists of segments do to them.
use lensor_os.Prelude.{
  ℕ, zero, suc, ◌+◌, ◌≡◌, refl, ap, ◌≤◌, true, false, Bool, Option, none, some, List, [], ◌∷◌, ◌++◌,
  arith, if◌then◌else◌, ◌==◌, Bool-cases, inl, inr,
}
use lensor_os.Memory.Heap.{header_size, heap_virtual_base, expansion}
use lensor_os.Memory.Heap.Chain.{Segment, after, past}
use lensor_os.Memory.Heap.Combine.{merged, absorb_next, absorb_into}
use lensor_os.Memory.Heap.FirstFit.{suits, carve, first_fit}
use lensor_os.Memory.Heap.Split.{front_part, rest_of}
use lensor_os.Memory.Heap.Expand.{grow, extension}
use lensor_os.Memory.Heap.Malloc.{allocate_segments}

abbrev pub Blocks : Type 0
Blocks = List (ℕ × ℕ)

abbrev pub live : ℕ → List Segment → Blocks
live a [] = []
live a (s ∷ rest) =
    if s.free then live (after a s) rest else (a + header_size, s.length) ∷ live (after a s) rest

-- The second blocks are the first ones with one more.
abbrev pub Added : ℕ → ℕ → Blocks → Blocks → Type 0
Added p n xs ys =
    (before : Blocks) × (behind : Blocks) × (xs ≡ before ++ behind)
    × (ys ≡ before ++ ((p, n) ∷ behind))

Added-cons : (b : ℕ × ℕ) (p n : ℕ) (xs ys : Blocks) → Added p n xs ys → Added p n (b ∷ xs) (b ∷ ys)
Added-cons b p n xs ys (before, behind, e, e') =
    (b ∷ before, behind, ap (λ (l : Blocks). b ∷ l) e, ap (λ (l : Blocks). b ∷ l) e')

Added-cons_unless :
    (free : Bool) (b : ℕ × ℕ) (p n : ℕ) (xs ys : Blocks)
    → Added p n xs ys
    → Added p n (if free then xs else b ∷ xs) (if free then ys else b ∷ ys)
Added-cons_unless true b p n xs ys g = g
Added-cons_unless false b p n xs ys g = Added-cons b p n xs ys g

pub live-append :
    (a : ℕ) (xs ys : List Segment) → live a (xs ++ ys) ≡ live a xs ++ live (past a xs) ys
live-append a [] ys = refl
live-append a (x ∷ xs) ys = ground (arith, live-append (after a x) xs ys)

-- A free segment takes no block in with it.
pub live-absorb_next :
    (a : ℕ) (s : Segment) (ys : List Segment)
    → s.free ≡ true
    → live a (absorb_next s ys) ≡ live (after a s) ys
live-absorb_next a s [] f = rw f refl
live-absorb_next a s (t ∷ ys) f =
    let same : after a (merged s t) ≡ after (after a s) t = omega arith in ground (arith, same)

pub live-absorb_into :
    (a : ℕ) (p s : Segment) (ys : List Segment) → live a (absorb_into p s ys) ≡ live a (p ∷ s ∷ ys)
live-absorb_into a p s ys = ground (arith, live-absorb_next a p (s ∷ ys))

live-grow : (bytes a : ℕ) (segs : List Segment) → live a (grow bytes segs) ≡ live a segs
live-grow bytes a [] = refl
live-grow bytes a (s ∷ []) = ground (arith, live-absorb_into a s (extension bytes) [])
live-grow bytes a (s ∷ t ∷ rest) = ground (arith, live-grow bytes (after a s) (t ∷ rest))

-- A carved segment has one block more, of the length that is asked for.
live-carve :
    (n a : ℕ) (s : Segment) (ys : List Segment)
    → suits n s ≡ true
    → live a (carve n s ++ ys) ≡ (a + header_size, n) ∷ live (after a s) ys
live-carve n a s ys fit = elim (Bool-cases (s.length == n)) [
  | inl e ↦ ground arith
  | inr e ↦
      let same : after (after a (front_part n s)) (rest_of n s) ≡ after a s = ground arith in
      ground (arith, same)
]

-- What is granted is one more block, of the length that is asked for.
abbrev pub Grants : ℕ → ℕ → Blocks → Option (ℕ × List Segment) → Type 0
Grants n a xs none = Unit
Grants n a xs (some (p, segs)) = Added p n xs (live a segs)

Grants-skip :
    (n a : ℕ) (s : Segment) (xs : Blocks) (o : Option (ℕ × List Segment))
    → Grants n (after a s) xs o
    → Grants n a
        (if s.free then xs else (a + header_size, s.length) ∷ xs)
        (elim o [ none ↦ none | some (p, segs) ↦ some (p, s ∷ segs) ])
Grants-skip n a s xs none g = tt
Grants-skip n a s xs (some (p, segs)) g =
    Added-cons_unless s.free (a + header_size, s.length) p n xs (live (after a s) segs) g

first_fit-Grants : (n a : ℕ) (segs : List Segment) → Grants n a (live a segs) (first_fit n a segs)
first_fit-Grants n a [] = tt
first_fit-Grants n a (s ∷ rest) = elim (Bool-cases (suits n s)) [
  | inl fit ↦ rw fit ([], live (after a s) rest, ground arith, live-carve n a s rest fit)
  | inr unfit ↦
      rw unfit (Grants-skip n a s (live (after a s) rest) _ (first_fit-Grants n (after a s) rest))
]

Grants-retry :
    (n a : ℕ) (xs : Blocks) (o again : Option (ℕ × List Segment))
    → Grants n a xs o
    → Grants n a xs again
    → Grants n a xs (elim o [ none ↦ again | some found ↦ some found ])
Grants-retry n a xs none again g g' = g'
Grants-retry n a xs (some found) again g g' = g

pub allocate_segments-Grants :
    (rounds n : ℕ) (segs : List Segment)
    → Grants n heap_virtual_base (live heap_virtual_base segs) (allocate_segments rounds n segs)
allocate_segments-Grants zero n segs = tt
allocate_segments-Grants (suc rounds) n segs =
    Grants-retry n heap_virtual_base _ (first_fit n heap_virtual_base segs) _
      (first_fit-Grants n heap_virtual_base segs)
      (rw (live-grow (expansion n) heap_virtual_base segs) at
        (allocate_segments-Grants rounds n (grow (expansion n) segs)))

-- Blocks that stand one behind the other from an address to another, each behind its own header.
abbrev pub Apart : ℕ → Blocks → ℕ → Type 0
Apart from [] to = from ≤ to
Apart from ((p, n) ∷ rest) to = (from + header_size ≤ p) × Apart (p + n) rest to

Apart-from : (a b : ℕ) (xs : Blocks) (to : ℕ) → a ≤ b → Apart b xs to → Apart a xs to
Apart-from a b [] to l h = omega arith
Apart-from a b ((p, n) ∷ rest) to l (h, r) = (omega arith, r)

pub live-Apart : (a : ℕ) (segs : List Segment) → Apart a (live a segs) (past a segs)
live-Apart a [] = omega arith
live-Apart a (s ∷ rest) =
    let r = live-Apart (after a s) rest in
    elim (Bool-cases s.free) [
      | inl f ↦ rw f (Apart-from a (after a s) (live (after a s) rest) _ (omega arith) r)
      | inr f ↦ rw f (omega arith, r)
    ]
