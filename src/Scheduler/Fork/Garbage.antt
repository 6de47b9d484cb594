-- ===== src/Scheduler/Fork/Garbage.antt =====
-- Vectors without holes, and the list of garbage descriptors that are erased from one,
-- kernel/src/scheduler.cpp.
use lensor_os.Prelude.{
  ℕ, ◌+◌, ◌≡◌, ◌≢◌, ◌∙◌, refl, ap, ◌≤◌, ◌<◌, true, false, Option, none, some, List, [], ◌∷◌, ◌++◌,
  arith, ltb, length, if◌then◌else◌, ◌==◌, ◌||◌, Bool-cases, Option-cases, inl, inr,
}
use lensor_os.Containers.SparseVector.{SparseVector, at, flatten, push_back, allocate, erase}
use lensor_os.Containers.SparseVector.Invariant.{
  IsValid, has, Distinct, set-snoc, get_elem?-snoc, get_elem?_beyond,
}
use lensor_os.Containers.SparseVector.Laws.{erase_lem}
use lensor_os.Scheduler.Fork.{erase_all}

-- A vector without holes.
abbrev pub whole : List (Option ℕ) → SparseVector ℕ
whole els = record { els = els; idxs = [] }

pub push_back-whole :
    (els : List (Option ℕ)) (a : ℕ)
    → push_back (some a) (whole els) ≡ (length els, true, whole (els ++ (some a ∷ [])))
unfolding push_back allocate
push_back-whole els a = rw (set-snoc els none (some a)) refl

pub length-snoc : (els : List (Option ℕ)) (a : Option ℕ) → length (els ++ (a ∷ [])) ≡ length els + 1
length-snoc [] a = refl
length-snoc (x ∷ els) a = ground (arith, length-snoc els a)

pub at-snoc :
    (els : List (Option ℕ)) (a j : ℕ)
    → at (whole (els ++ (some a ∷ []))) j ≡ (if length els == j then some a else at (whole els) j)
unfolding at
at-snoc els a j = ground (arith, get_elem?-snoc els (some a) j)

pub at_beyond : (els : List (Option ℕ)) (j : ℕ) → length els ≤ j → at (whole els) j ≡ none
unfolding at
at_beyond els j l = ap flatten (get_elem?_beyond els j l)

pub whole-IsValid :
    (els : List (Option ℕ))
    → ((j : ℕ) → j < length els → at (whole els) j ≢ none)
    → IsValid (whole els)
unfolding at
whole-IsValid els full = record {
  holes = λ i h. ground arith;
  listed = λ i e. elim (Bool-cases (ltb i (length els))) [
    | inl l ↦ absurd (full i (ground arith) (ap flatten e))
    | inr l ↦ ground (arith, get_elem?_beyond els i)
  ];
  distinct = tt;
}

pub has-snoc : (i x : ℕ) (js : List ℕ) → has i (js ++ (x ∷ [])) ≡ (has i js || (x == i))
has-snoc i x [] = ground arith
has-snoc i x (j ∷ js) = ground (arith, has-snoc i x js)

pub Distinct-snoc :
    (x : ℕ) (js : List ℕ) → Distinct js → has x js ≡ false → Distinct (js ++ (x ∷ []))
Distinct-snoc x [] d e = (refl, tt)
Distinct-snoc x (j ∷ js) d e =
    (ground (arith, has-snoc j x js, d.0), Distinct-snoc x js d.1 (ground arith))

erase_all_cons :
    (x : ℕ) (g : List ℕ) (v v' : SparseVector ℕ)
    → erase x v ≡ some (true, v')
    → erase_all (x ∷ g) v ≡ erase_all g v'
unfolding erase_all
erase_all_cons x g v v' e = rw (erase_all, e) refl

-- The garbage can be erased, and nothing else is.
pub erase_all_lem :
    (g : List ℕ) (v : SparseVector ℕ)
    → IsValid v
    → Distinct g
    → ((j : ℕ) → has j g ≡ true → at v j ≢ none)
    → (v' : SparseVector ℕ) × (erase_all g v ≡ some v')
      × ((j : ℕ) → at v' j ≡ (if has j g then none else at v j))
      × IsValid v'
unfolding erase_all
erase_all_lem [] v h d full = (v, refl, (λ j. refl), h)
erase_all_lem (x ∷ g) v h d full = elim (Option-cases (at v x)) [
  | inl e ↦ absurd (full x (ground arith) e)
  | inr (a, e) ↦
      let (v1, erased, reads, valid, _) = erase_lem v x a h e in
      let (v2, rest, reads', valid') =
        erase_all_lem g v1 valid d.1 (λ j m. ground (arith, reads j, full j, d.0)) in
      (v2, erase_all_cons x g v v1 erased ∙ rest, (λ j. ground (arith, reads j, reads' j)), valid')
]
