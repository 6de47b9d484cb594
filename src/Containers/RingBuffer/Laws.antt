-- ===== src/Containers/RingBuffer/Laws.antt =====
-- A ring buffer with room to spare is a queue; what happens at the boundary where it is full.
use lensor_os.Prelude.{
  ℕ, zero, suc, ◌+◌, ◌-◌, ◌≡◌, ◌∙◌, refl, sym, ap, ap₂, ◌<◌, Option, none, some, List, [], ◌∷◌,
  ◌++◌, arith, leb, if◌then◌else◌, length, get_elem?, set, length-set, get_elem?-set_ne,
}
use lensor_os.Containers.SparseVector.Invariant.{get_elem?_beyond}
use lensor_os.Containers.RingBuffer.{RingBuffer, size, push_back, pop_front}

-- One step round, and `n` steps.
abbrev pub next : ℕ → ℕ → ℕ
next cap i = if leb cap (i + 1) then 0 else i + 1

abbrev ahead : ℕ → ℕ → ℕ → ℕ
ahead cap i n = if leb cap (i + n) then i + n - cap else i + n

module _ {ℓ} {A : Type ℓ} where
  -- Both indices lie in the storage.
  pub record IsValid (r : RingBuffer A) : Type 0 where
    pub head_in : r.head < length r.slots
    pub tail_in : r.tail < length r.slots

  -- The `n` elements that are met from index `i` on, going round at `cap`.
  abbrev pub window : ℕ → List A → ℕ → ℕ → List (Option A)
  window cap slots i zero = []
  window cap slots i (suc n) = get_elem? slots i ∷ window cap slots (next cap i) n

  -- The elements from head to tail.
  abbrev pub contents : RingBuffer A → List (Option A)
  contents r = window (length r.slots) r.slots r.head (size r)

  get_elem?-set_here :
      (xs : List A) (i : ℕ) (v : A) → i < length xs → get_elem? (set xs i v) i ≡ some v
  get_elem?-set_here [] i v h = absurd (omega arith)
  get_elem?-set_here (x ∷ xs) zero v h = refl
  get_elem?-set_here (x ∷ xs) (suc i) v h = get_elem?-set_here xs i v (omega arith)

  window-set :
      (cap : ℕ) (slots : List A) (v : A) (n i k : ℕ)
      → cap ≡ length slots
      → i < cap
      → n < cap
      → k ≡ ahead cap i n
      → window cap (set slots k v) i (suc n) ≡ window cap slots i n ++ (some v ∷ [])
  window-set cap slots v zero i k c hi hn e =
      let here : k ≡ i = ground arith in
      rw here (ap (λ o. o ∷ []) (get_elem?-set_here slots i v (omega arith)))
  window-set cap slots v (suc n) i k c hi hn e =
      ap₂ ◌∷◌ (get_elem?-set_ne slots v (ground arith))
        (window-set cap slots v n (next cap i) k c (ground arith) (omega arith) (ground arith))

  window-pos :
      (cap : ℕ) (slots : List A) (i n : ℕ)
      → 0 < n
      → window cap slots i n ≡ get_elem? slots i ∷ window cap slots (next cap i) (n - 1)
  window-pos cap slots i zero h = absurd (omega arith)
  window-pos cap slots i (suc n) h =
      ap (λ k. get_elem? slots i ∷ window cap slots (next cap i) k) (omega arith)

  contents_of_parts :
      (r : RingBuffer A) (slots : List A) (head n : ℕ)
      → r.slots ≡ slots
      → r.head ≡ head
      → size r ≡ n
      → contents r ≡ window (length slots) slots head n
  contents_of_parts r slots head n p q e = λ i. window (length (p i)) (p i) (q i) (e i)

  module _ (r : RingBuffer A) (h : IsValid r) where
    size-lt : size r < length r.slots
    unfolding size
    size-lt = ground arith

    tail-ahead : r.tail ≡ ahead (length r.slots) r.head (size r)
    unfolding size
    tail-ahead = ground arith

    pop-parts :
        0 < size r
        → ((pop_front r).1.slots ≡ r.slots)
          × ((pop_front r).1.head ≡ next (length r.slots) r.head)
          × (size (pop_front r).1 ≡ size r - 1)
          × ((pop_front r).0 ≡ get_elem? r.slots r.head)
          × IsValid (pop_front r).1
    unfolding size pop_front
    pop-parts some_left = ground arith

    module _ (v : A) where
      push-parts :
          size r + 1 < length r.slots
          → ((push_back v r).slots ≡ set r.slots r.tail v)
            × ((push_back v r).head ≡ r.head)
            × (size (push_back v r) ≡ suc (size r))
            × IsValid (push_back v r)
      unfolding size push_back
      push-parts room = ground (arith, length-set r.slots r.tail v)

      -- With room for one more, `push_back` puts the element at the end of the contents.
      pub push_back_room :
          size r + 1 < length r.slots
          → (contents (push_back v r) ≡ contents r ++ (some v ∷ [])) × IsValid (push_back v r)
      push_back_room room =
          let (slots, head, count, valid) = push-parts room in
          (
            contents_of_parts (push_back v r) _ _ _ slots head count
                ∙ ap (λ cap. window cap (set r.slots r.tail v) r.head (suc (size r)))
                    (length-set r.slots r.tail v)
                ∙ window-set (length r.slots) r.slots v (size r) r.head r.tail refl h.head_in
                    size-lt tail-ahead,
            valid,
          )

    -- `pop_front` takes the oldest element of a ring buffer that is not empty.
    pub pop_front_lem :
        0 < size r
        → (contents r ≡ (pop_front r).0 ∷ contents (pop_front r).1) × IsValid (pop_front r).1
    pop_front_lem some_left =
        let (slots, head, count, out, valid) = pop-parts some_left in
        (
          window-pos (length r.slots) r.slots r.head (size r) some_left
              ∙ sym (ap₂ ◌∷◌ out (contents_of_parts (pop_front r).1 _ _ _ slots head count)),
          valid,
        )

  -- When the write fills the last slot of a ring whose head is the first one, everything is lost:
  -- the indices meet after the comparison, and the buffer counts as empty.
  pub push_back_loses_all :
      (r : RingBuffer A) (v : A)
      → r.head ≡ 0
      → r.tail + 1 ≡ length r.slots
      → (size r ≡ r.tail) × (size (push_back v r) ≡ 0)
  unfolding size push_back
  push_back_loses_all r v h t = ground (arith, length-set r.slots r.tail v)

  -- When the head that is pushed on is the last slot, it leaves the storage: the next `pop_front`
  -- reads outside it.
  pub push_back_leaves_storage :
      (r : RingBuffer A) (v : A)
      → r.head + 1 ≡ length r.slots
      → r.tail + 1 ≡ r.head
      → (pop_front (push_back v r)).0 ≡ none
  unfolding push_back pop_front
  push_back_leaves_storage r v h t =
      ground
        (arith, length-set r.slots r.tail v, get_elem?_beyond (set r.slots r.tail v) (r.head + 1))
