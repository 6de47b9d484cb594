-- ===== src/Containers/SparseVector.antt =====
-- `std::sparse_vector`, std/include/extensions_sparse_vector. An element is an `Option`, where
-- `none` is the invalid element that marks a hole; the index type is ℕ. A read or write at
-- `__els[__els.size()]`, past the end, is a fault.
pub mod Invariant
pub mod Laws
pub mod Compact
mod Examples
use lensor_os.Prelude.{
  ℕ, zero, suc, ◌+◌, ◌-◌, Bool, true, false, ◌||◌, not, Option, none, some, List, [], ◌∷◌, ◌++◌,
  ltb, leb, if◌then◌else◌, ◌==◌, length, get_elem?, set, take,
}

module _ {ℓ} where
  -- `__idxs` is kept with its back first.
  pub record SparseVector (A : Type ℓ) : Type ℓ where
    pub els : List (Option A)
    pub idxs : List ℕ

-- `std::erase_if(__idxs, [__i](auto __j) { return __j == __i; })`
unfoldable pub erase_index : ℕ → List ℕ → List ℕ
erase_index i [] = []
erase_index i (j ∷ js) = if j == i then erase_index i js else j ∷ erase_index i js

module _ {ℓ} {A : Type ℓ} where
  abbrev pub empty : SparseVector A
  empty = record { els = []; idxs = [] }

  -- The element at an index within the vector, its hole included; `none` is a fault.
  abbrev pub slot : SparseVector A → ℕ → Option (Option A)
  slot v i = get_elem? v.els i

  -- `allocate`, by cases on the list of free indices: the index, whether an element was added, and
  -- the vector.
  unfoldable pub allocate_from : List ℕ → SparseVector A → ℕ × Bool × SparseVector A
  allocate_from [] v = (length v.els, true, record v { els = v.els ++ (none ∷ []) })
  allocate_from (i ∷ free) v = (i, false, record v { idxs = free })

  unfoldable pub allocate : SparseVector A → ℕ × Bool × SparseVector A
  unfolding allocate_from
  allocate v = allocate_from v.idxs v

  -- `push_back`: the index of the new element, whether one was inserted, and the vector.
  unfoldable pub push_back : Option A → SparseVector A → ℕ × Bool × SparseVector A
  push_back none v = (0, false, v)
  push_back (some a) v =
      let (i, _, v') = allocate v in (i, true, record v' { els = set v'.els i (some a) })

  -- `replace`. Its guard lets the index one past the end through.
  unfoldable pub replace : ℕ → Option A → SparseVector A → Option (Bool × SparseVector A)
  replace i el v = if ltb (length v.els) i then some (false, v) else elim (slot v i) [
    | none ↦ none
    | some none ↦ some (true, record v { els = set v.els i el; idxs = erase_index i v.idxs })
    | some (some _) ↦ some (true, record v { els = set v.els i el })
  ]

  -- `erase` at an index, with the same guard.
  unfoldable pub erase : ℕ → SparseVector A → Option (Bool × SparseVector A)
  erase i v = if ltb (length v.els) i then some (false, v) else elim (slot v i) [
    | none ↦ none
    | some none ↦ some (false, v)
    | some (some _) ↦ some (true, record v { els = set v.els i none; idxs = i ∷ v.idxs })
  ]

  unfoldable pub clear_and_delete : SparseVector A → SparseVector A
  clear_and_delete v = empty

  abbrev pub flatten : Option (Option A) → Option A
  flatten none = none
  flatten (some o) = o

  -- `operator[]`, with the test of the result that the callers make: beyond the end, and at a hole,
  -- there is no element.
  unfoldable pub at : SparseVector A → ℕ → Option A
  at v i = flatten (slot v i)

  -- What the iterators over `pairs` go through: the elements that are no holes, with their indices.
  unfoldable pub pairs_from : ℕ → List (Option A) → List (ℕ × A)
  pairs_from i [] = []
  pairs_from i (none ∷ els) = pairs_from (i + 1) els
  pairs_from i (some a ∷ els) = (i, a) ∷ pairs_from (i + 1) els

  unfoldable pub pairs : SparseVector A → List (ℕ × A)
  pairs v = pairs_from 0 v.els

  abbrev pub is_hole : Option (Option A) → Bool
  is_hole (some none) = true
  is_hole _ = false

  -- `compact`: the first index from `i` on whose hole test is `hole`, or the size. The first
  -- argument counts the rounds left.
  unfoldable pub scan : Bool → ℕ → ℕ → List (Option A) → ℕ
  scan hole zero i els = i
  scan hole (suc n) i els =
      let rest = scan hole n (i + 1) els in
      if hole
      then (if is_hole (get_elem? els i) then i else rest)
      else (if is_hole (get_elem? els i) then rest else i)

  -- The loop that moves the elements from `el` on into the hole. What `move` leaves behind is cut
  -- off by the resize that follows.
  unfoldable pub move_rounds : ℕ → ℕ → ℕ → List (Option A) → ℕ × List (Option A)
  move_rounds zero hole el els = (hole, els)
  move_rounds (suc n) hole el els =
      let step : ℕ × List (Option A) =
        if is_hole (get_elem? els el)
        then (hole, els)
        else (hole + 1, set els hole (flatten (get_elem? els el))) in
      move_rounds n step.0 (el + 1) step.1

  unfoldable pub compact : SparseVector A → SparseVector A
  compact v =
      let size = length v.els in
      let hole = scan true size 0 v.els in
      let el = scan false (size - (hole + 1)) (hole + 1) v.els in
      let moved = move_rounds (size - el) hole el v.els in
      if hole == size
      then v
      else if el == size
      then record { els = take hole v.els; idxs = [] }
      else record { els = take moved.0 moved.1; idxs = [] }
