-- ===== src/Containers/SparseVector/Laws.antt =====
-- What the operations of a sparse vector promise: handles are stable, an erased index is used again
-- by the next insertion, and nothing but the index at hand changes.
use lensor_os.Prelude.{
  ℕ, ◌≡◌, ◌∙◌, ◌↔◌, refl, ap, ◌<◌, true, false, Option, none, some, List, [], ◌∷◌, ◌++◌, arith, ltb,
  if◌then◌else◌, ◌==◌, Bool-cases, Option-cases, length, set, inl, inr,
}
use lensor_os.Containers.SparseVector.{
  SparseVector, slot, allocate, push_back, erase_index, replace, erase, at, flatten,
}
use lensor_os.Containers.SparseVector.Invariant.{
  IsValid, has-erase_index, Distinct-erase_index, get_elem?_beyond, lt_of_get_elem?, get_elem?-set,
  get_elem?-snoc, set-snoc, get_elem?_below,
}

module _ {ℓ} {A : Type ℓ} where
  -- What an insertion of `a` at index `i` promises.
  pub record Inserted (v : SparseVector A) (a : A) (i : ℕ) (v' : SparseVector A) : Type ℓ where
    pub vacant : at v i ≡ none
    pub reads : (j : ℕ) → at v' j ≡ (if i == j then some a else at v j)
    pub valid : IsValid v'

  abbrev vector : List (Option A) → List ℕ → SparseVector A
  vector els idxs = record { els = els; idxs = idxs }

  push_back_fresh :
      (els : List (Option A)) (a : A)
      → IsValid (vector els [])
      → Inserted (vector els []) a (length els) (vector (els ++ (some a ∷ [])) [])
  unfolding at
  push_back_fresh els a h = record {
    vacant = ap flatten (get_elem?_beyond els (length els) (omega arith));
    reads = λ j. ground (arith, get_elem?-snoc els (some a) j);
    valid = record {
      holes = λ i e. ground arith;
      listed = λ i e. ground (arith, get_elem?-snoc els (some a) i, h.listed i);
      distinct = tt;
    };
  }

  push_back_reuse :
      (els : List (Option A)) (i : ℕ) (free : List ℕ) (a : A)
      → IsValid (vector els (i ∷ free))
      → Inserted (vector els (i ∷ free)) a i (vector (set els i (some a)) free)
  unfolding at
  push_back_reuse els i free a h =
      let hole = h.holes i (ground arith) in
      let below = lt_of_get_elem? els i none hole in
      record {
        vacant = ap flatten hole;
        reads = λ j. ground (arith, get_elem?-set els i j (some a));
        valid = record {
          holes = λ j e. ground (arith, h.distinct, get_elem?-set els i j (some a), h.holes j);
          listed = λ j e. ground (arith, get_elem?-set els i j (some a), h.listed j);
          distinct = h.distinct.1;
        };
      }

  push_back_parts :
      (els : List (Option A)) (idxs : List ℕ) (a : A)
      → let v = vector els idxs in
        IsValid v → Inserted v a (push_back (some a) v).0 (push_back (some a) v).2
  unfolding push_back allocate
  push_back_parts els [] a h = rw (set-snoc els none (some a)) (push_back_fresh els a h)
  push_back_parts els (i ∷ free) a h = push_back_reuse els i free a h

  -- An insertion into a well-formed vector succeeds, at an index that held no element: that index
  -- reads as the new element, every other index reads as before, and the vector stays well formed.
  pub push_back_lem :
      (v : SparseVector A) (a : A)
      → IsValid v
      → let (i, inserted, v') = push_back (some a) v in (inserted ≡ true) × Inserted v a i v'
  unfolding push_back
  push_back_lem v a h = (refl, push_back_parts v.els v.idxs a h)

  -- `replace` at an index that is not the size: out of range it refuses, else the index reads as the
  -- new element and every other as before.
  pub replace_lem :
      (v : SparseVector A) (i : ℕ) (a : A)
      → IsValid v
      → i < length v.els
      → (v' : SparseVector A) × (replace i (some a) v ≡ some (true, v'))
        × ((j : ℕ) → at v' j ≡ (if i == j then some a else at v j))
        × IsValid v'
  unfolding replace at
  replace_lem v i a h l =
      let (o, e) = get_elem?_below v.els i l in
      let guard : ltb (length v.els) i ≡ false = ground arith in
      elim (Option-cases o) [
        | inl hole ↦
            let e' : slot v i ≡ some none = e ∙ ap some hole in
            (
              record { els = set v.els i (some a); idxs = erase_index i v.idxs },
              rw (guard, e'),
              (λ j. ground (arith, get_elem?-set v.els i j (some a))),
              record {
                holes = λ j f. ground (
                  arith,
                  has-erase_index i j v.idxs,
                  get_elem?-set v.els i j (some a),
                  h.holes j,
                );
                listed = λ j f. ground (
                  arith,
                  has-erase_index i j v.idxs,
                  get_elem?-set v.els i j (some a),
                  h.listed j,
                );
                distinct = Distinct-erase_index i v.idxs h.distinct;
              },
            )
        | inr (b, held) ↦
            let e' : slot v i ≡ some (some b) = e ∙ ap some held in
            (
              record v { els = set v.els i (some a) },
              rw (guard, e'),
              (λ j. ground (arith, get_elem?-set v.els i j (some a))),
              record {
                holes = λ j f. ground (arith, get_elem?-set v.els i j (some a), h.holes j);
                listed = λ j f. ground (arith, get_elem?-set v.els i j (some a), h.listed j);
                distinct = h.distinct;
              },
            )
      ]

  pub slot_of_at : (v : SparseVector A) (i : ℕ) (a : A) → at v i ≡ some a → slot v i ≡ some (some a)
  unfolding at
  slot_of_at v i a e = ground arith

  -- `erase` of an element succeeds: its index reads as a hole and every other as before.
  pub erase_lem :
      (v : SparseVector A) (i : ℕ) (a : A)
      → IsValid v
      → at v i ≡ some a
      → (v' : SparseVector A) × (erase i v ≡ some (true, v'))
        × ((j : ℕ) → at v' j ≡ (if i == j then none else at v j))
        × IsValid v'
        × ((b : A) → (push_back (some b) v').0 ≡ i)
  unfolding erase at push_back allocate
  erase_lem v i a h e =
      let e' = slot_of_at v i a e in
      let l = lt_of_get_elem? v.els i (some a) e' in
      let guard : ltb (length v.els) i ≡ false = ground arith in
      (
        record { els = set v.els i none; idxs = i ∷ v.idxs },
        rw (guard, e'),
        (λ j. ground (arith, get_elem?-set v.els i j none)),
        record {
          holes = λ j f. ground (arith, get_elem?-set v.els i j none, h.holes j);
          listed = λ j f. ground (arith, get_elem?-set v.els i j none, h.listed j);
          distinct = (ground (arith, h.holes i), h.distinct);
        },
        λ b. refl,
      )

  -- `erase` goes past the end of the vector exactly at the index that equals its size.
  pub erase_fault : (v : SparseVector A) (i : ℕ) → (erase i v ≡ none) ↔ (i ≡ length v.els)
  unfolding erase
  erase_fault v i = (
    λ f. elim (Bool-cases (ltb i (length v.els))) [
      | inl below ↦
          let (o, e) = get_elem?_below v.els i (ground arith) in absurd (ground (arith, f, e))
      | inr beyond ↦ elim (Bool-cases (ltb (length v.els) i)) [
        | inl above ↦ let f' = rw above at f in absurd (ground arith)
        | inr at_most ↦ ground arith
      ]
    ],
    λ e.
        let guard : ltb (length v.els) i ≡ false = ground arith in
        rw (guard, get_elem?_beyond v.els i (omega arith)),
  )
