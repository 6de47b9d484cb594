-- ===== src/Containers/SparseVector/Invariant.antt =====
-- The free list of a sparse vector names its holes, each once; every operation keeps this.
use lensor_os.Prelude.{
  ℕ, zero, suc, ◌≡◌, ◌∙◌, refl, ap, ◌≤◌, ◌<◌, Bool, true, false, ◌||◌, none, some, List, [], ◌∷◌,
  ◌++◌, arith, if◌then◌else◌, ◌==◌, Bool-cases, length, get_elem?, set, get_elem?-set_self,
  get_elem?-set_ne, inl, inr,
}
use lensor_os.Containers.SparseVector.{SparseVector, slot, erase_index}

-- The index occurs in the list.
abbrev pub has : ℕ → List ℕ → Bool
has i [] = false
has i (j ∷ js) = (j == i) || has i js

abbrev pub Distinct : List ℕ → Type 0
Distinct [] = Unit
Distinct (j ∷ js) = (has j js ≡ false) × Distinct js

pub has-erase_index :
    (i j : ℕ) (js : List ℕ) → has j (erase_index i js) ≡ (if i == j then false else has j js)
unfolding erase_index
has-erase_index i j [] = ground arith
has-erase_index i j (k ∷ js) = ground (arith, has-erase_index i j js)

pub Distinct-erase_index : (i : ℕ) (js : List ℕ) → Distinct js → Distinct (erase_index i js)
unfolding erase_index
Distinct-erase_index i [] d = d
Distinct-erase_index i (k ∷ js) d =
    ground (arith, Distinct-erase_index i js, has-erase_index i k js)

module _ {ℓ} {A : Type ℓ} where
  get_elem?-append_left :
      (xs ys : List A) (i : ℕ) → i < length xs → get_elem? (xs ++ ys) i ≡ get_elem? xs i
  get_elem?-append_left [] ys i h = absurd (omega arith)
  get_elem?-append_left (x ∷ xs) ys zero h = refl
  get_elem?-append_left (x ∷ xs) ys (suc i) h = get_elem?-append_left xs ys i (omega arith)

  get_elem?-append_last : (xs : List A) (x : A) → get_elem? (xs ++ (x ∷ [])) (length xs) ≡ some x
  get_elem?-append_last [] x = refl
  get_elem?-append_last (y ∷ xs) x = get_elem?-append_last xs x

  pub get_elem?_beyond : (xs : List A) (i : ℕ) → length xs ≤ i → get_elem? xs i ≡ none
  get_elem?_beyond [] i h = refl
  get_elem?_beyond (x ∷ xs) zero h = absurd (omega arith)
  get_elem?_beyond (x ∷ xs) (suc i) h = get_elem?_beyond xs i (omega arith)

  pub lt_of_get_elem? : (xs : List A) (i : ℕ) (x : A) → get_elem? xs i ≡ some x → i < length xs
  lt_of_get_elem? [] i x h = cc
  lt_of_get_elem? (y ∷ xs) zero x h = omega arith
  lt_of_get_elem? (y ∷ xs) (suc i) x h = omega (arith, lt_of_get_elem? xs i x h)

  -- The slots after a write.
  pub get_elem?-set :
      (xs : List A) (i j : ℕ) (x : A)
      → i < length xs
      → get_elem? (set xs i x) j ≡ (if i == j then some x else get_elem? xs j)
  get_elem?-set xs i j x h = elim (Bool-cases (i == j)) [
    | inl e ↦ let e' : i ≡ j = ground arith in rw (e, ← e') (get_elem?-set_self xs i x h)
    | inr e ↦ rw e (get_elem?-set_ne xs x (ground arith))
  ]

module _ {ℓ} {A : Type ℓ} where
  pub record IsValid (v : SparseVector A) : Type ℓ where
    pub holes : (i : ℕ) → has i v.idxs ≡ true → slot v i ≡ some none
    pub listed : (i : ℕ) → slot v i ≡ some none → has i v.idxs ≡ true
    pub distinct : Distinct v.idxs

module _ {ℓ} {A : Type ℓ} where
  pub get_elem?-snoc :
      (xs : List A) (x : A) (j : ℕ)
      → get_elem? (xs ++ (x ∷ [])) j ≡ (if length xs == j then some x else get_elem? xs j)
  get_elem?-snoc [] x zero = refl
  get_elem?-snoc [] x (suc j) = ground arith
  get_elem?-snoc (y ∷ xs) x zero = ground arith
  get_elem?-snoc (y ∷ xs) x (suc j) = get_elem?-snoc xs x j ∙ ground arith

  pub set-snoc : (xs : List A) (x y : A) → set (xs ++ (x ∷ [])) (length xs) y ≡ xs ++ (y ∷ [])
  set-snoc [] x y = refl
  set-snoc (z ∷ xs) x y = ap (λ r. z ∷ r) (set-snoc xs x y)

module _ {ℓ} {A : Type ℓ} where
  pub get_elem?_below : (xs : List A) (i : ℕ) → i < length xs → (x : A) × (get_elem? xs i ≡ some x)
  get_elem?_below [] i h = absurd (omega arith)
  get_elem?_below (x ∷ xs) zero h = (x, refl)
  get_elem?_below (x ∷ xs) (suc i) h = get_elem?_below xs i (omega arith)
