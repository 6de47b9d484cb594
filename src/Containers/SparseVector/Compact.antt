-- ===== src/Containers/SparseVector/Compact.antt =====
-- `compact` keeps the elements, in their order, and leaves no hole.
use lensor_os.Prelude.{
  ℕ, zero, suc, ◌+◌, ◌-◌, ◌≡◌, ◌∙◌, refl, sym, ap, ap₂, ◌≤◌, ◌<◌, true, false, Option, none, some,
  List, [], ◌∷◌, ◌++◌, arith, subst, take-append-drop, ◌==◌, Bool-cases, Option-cases, inl, inr,
  length, get_elem?, set, take, drop, append_assoc, append-nil, length-set,
}
use lensor_os.Containers.SparseVector.{SparseVector, scan, move_rounds, compact}

module _ {ℓ} {A : Type ℓ} where
  -- The elements of the vector, the holes left out.
  abbrev pub kept : List (Option A) → List A
  kept [] = []
  kept (none ∷ els) = kept els
  kept (some a ∷ els) = a ∷ kept els

  kept-append : (xs ys : List (Option A)) → kept (xs ++ ys) ≡ kept xs ++ kept ys
  kept-append [] ys = refl
  kept-append (none ∷ xs) ys = kept-append xs ys
  kept-append (some a ∷ xs) ys = ap (λ l. a ∷ l) (kept-append xs ys)

  take-set_snoc :
      (i : ℕ) (xs : List (Option A)) (x : Option A)
      → i < length xs
      → take (suc i) (set xs i x) ≡ take i xs ++ (x ∷ [])
  take-set_snoc i [] x h = absurd (omega arith)
  take-set_snoc zero (y ∷ xs) x h = refl
  take-set_snoc (suc i) (y ∷ xs) x h = ap (λ l. y ∷ l) (take-set_snoc i xs x (omega arith))

  drop-set :
      (i k : ℕ) (xs : List (Option A)) (x : Option A) → i < k → drop k (set xs i x) ≡ drop k xs
  drop-set i k [] x h = refl
  drop-set i zero (y ∷ xs) x h = absurd (omega arith)
  drop-set zero (suc k) (y ∷ xs) x h = refl
  drop-set (suc i) (suc k) (y ∷ xs) x h = drop-set i k xs x (omega arith)

  drop-step :
      (k : ℕ) (xs : List (Option A)) (x : Option A)
      → get_elem? xs k ≡ some x
      → drop k xs ≡ x ∷ drop (suc k) xs
  drop-step k [] x h = cc
  drop-step zero (y ∷ xs) x h = ap (λ z. z ∷ xs) cc
  drop-step (suc k) (y ∷ xs) x h = drop-step k xs x h

  found :
      (k : ℕ) (xs : List (Option A)) → k < length xs → (x : Option A) × (get_elem? xs k ≡ some x)
  found k [] h = absurd (omega arith)
  found zero (y ∷ xs) h = (y, refl)
  found (suc k) (y ∷ xs) h = found k xs (omega arith)

  drop_all : (k : ℕ) (xs : List (Option A)) → length xs ≤ k → drop k xs ≡ []
  drop_all zero [] h = refl
  drop_all zero (x ∷ xs) h = absurd (omega arith)
  drop_all (suc k) [] h = refl
  drop_all (suc k) (x ∷ xs) h = drop_all k xs (omega arith)

  -- No hole among them.
  abbrev pub Full : List (Option A) → Type 0
  Full [] = Unit
  Full (none ∷ els) = ⊥
  Full (some a ∷ els) = Full els

  Full-snoc : (xs : List (Option A)) (a : A) → Full xs → Full (xs ++ (some a ∷ []))
  Full-snoc [] a h = tt
  Full-snoc (none ∷ xs) a h = absurd h
  Full-snoc (some b ∷ xs) a h = Full-snoc xs a h

  skip_equation :
      (n hole el : ℕ) (els : List (Option A))
      → get_elem? els el ≡ some none
      → move_rounds (suc n) hole el els ≡ move_rounds n hole (el + 1) els
  unfolding move_rounds
  skip_equation n hole el els h = rw h refl

  move_equation :
      (n hole el : ℕ) (els : List (Option A)) (a : A)
      → get_elem? els el ≡ some (some a)
      → move_rounds (suc n) hole el els ≡ move_rounds n (hole + 1) (el + 1) (set els hole (some a))
  unfolding move_rounds
  move_equation n hole el els a h = rw h refl

  drop-next :
      (k : ℕ) (xs : List (Option A)) (x : Option A)
      → get_elem? xs k ≡ some x
      → drop k xs ≡ x ∷ drop (k + 1) xs
  drop-next k xs x h =
      let e : suc k ≡ k + 1 = omega arith in drop-step k xs x h ∙ ap (λ i. x ∷ drop i xs) e

  take-set_next :
      (i : ℕ) (xs : List (Option A)) (x : Option A)
      → i < length xs
      → take (i + 1) (set xs i x) ≡ take i xs ++ (x ∷ [])
  take-set_next i xs x h =
      let e : i + 1 ≡ suc i = omega arith in
      ap (λ k. take k (set xs i x)) e ∙ take-set_snoc i xs x h

  -- What a round of the loop that moves keeps of the elements: those put down and those to come.
  Keeps : List A → ℕ × List (Option A) → Type ℓ
  Keeps l r = (kept (take r.0 r.1) ≡ l) × Full (take r.0 r.1)

  moved :
      (n hole el : ℕ) (els : List (Option A))
      → hole < el
      → n + el ≡ length els
      → Full (take hole els)
      → Keeps (kept (take hole els) ++ kept (drop el els)) (move_rounds n hole el els)
  unfolding move_rounds Keeps
  moved zero hole el els h l full = (
    sym (
        ap (λ d. kept (take hole els) ++ kept d) (drop_all el els (omega arith))
        ∙ append-nil (kept (take hole els))),
    full,
  )
  moved (suc n) hole el els h l full =
      let (x, at) = found el els (omega arith) in
      elim (Option-cases x) [
        | inl e ↦
            let at' = at ∙ ap some e in
            let ih = moved n hole (el + 1) els (omega arith) (omega arith) full in
            let rest : kept (drop (el + 1) els) ≡ kept (drop el els) =
              sym (ap kept (drop-next el els none at')) in
            subst (Keeps (kept (take hole els) ++ kept (drop el els)))
              (sym (skip_equation n hole el els at'))
              (subst (λ l. Keeps (kept (take hole els) ++ l) (move_rounds n hole (el + 1) els)) rest
                ih)
        | inr (a, e) ↦
            let at' = at ∙ ap some e in
            let els' = set els hole (some a) in
            let front = take-set_next hole els (some a) (omega arith) in
            let ih =
              moved n (hole + 1) (el + 1) els' (omega arith)
                (omega (arith, length-set els hole (some a)))
                (subst Full (sym front) (Full-snoc (take hole els) a full)) in
            let all : kept (take (hole + 1) els') ++ kept (drop (el + 1) els')
                ≡ kept (take hole els) ++ kept (drop el els) =
              ap₂ (λ l m. l ++ m) (ap kept front ∙ kept-append (take hole els) (some a ∷ []))
                (ap kept (drop-set hole (el + 1) els (some a) (omega arith)))
              ∙ append_assoc (kept (take hole els)) (a ∷ []) (kept (drop (el + 1) els))
              ∙ ap (λ l. kept (take hole els) ++ l)
                  (sym (ap kept (drop-next el els (some a) at'))) in
            subst (Keeps (kept (take hole els) ++ kept (drop el els)))
              (sym (move_equation n hole el els a at'))
              (subst (λ l. Keeps l (move_rounds n (hole + 1) (el + 1) els')) all ih)
      ]

  take-next :
      (k : ℕ) (xs : List (Option A)) (x : Option A)
      → get_elem? xs k ≡ some x
      → take (k + 1) xs ≡ take k xs ++ (x ∷ [])
  take-next k [] x h = cc
  take-next zero (y ∷ xs) x h =
      let e : 0 + 1 ≡ 1 = omega arith in ap (λ i. take i (y ∷ xs)) e ∙ ap (λ z. z ∷ []) cc
  take-next (suc k) (y ∷ xs) x h =
      let e : suc k + 1 ≡ suc (k + 1) = omega arith in
      ap (λ i. take i (y ∷ xs)) e ∙ ap (λ l. y ∷ l) (take-next k xs x h)

  -- The first hole from `i` on, or the size.
  record FirstHole (els : List (Option A)) (h : ℕ) : Type ℓ where
    inside : h ≤ length els
    full : Full (take h els)
    hole : h < length els → get_elem? els h ≡ some none

  scan-hole :
      (n i : ℕ) (els : List (Option A))
      → n + i ≡ length els
      → Full (take i els)
      → FirstHole els (scan true n i els)
  unfolding scan
  scan-hole zero i els l full = record {
    inside = omega arith;
    full = full;
    hole = λ h. absurd (omega arith);
  }
  scan-hole (suc n) i els l full =
      let (x, at) = found i els (omega arith) in
      elim (Option-cases x) [
        | inl e ↦
            rw (at ∙ ap some e)
              (record { inside = omega arith; full = full; hole = λ h. at ∙ ap some e })
        | inr (a, e) ↦
            let at' = at ∙ ap some e in
            rw at' (
              scan-hole n (i + 1) els (omega arith)
                (subst Full (sym (take-next i els (some a) at')) (Full-snoc (take i els) a full)))
      ]

  -- The first element from `i` on, or the size: only holes are passed.
  record FirstElement (els : List (Option A)) (i e : ℕ) : Type ℓ where
    after : i ≤ e
    inside : e ≤ length els
    same : kept (drop i els) ≡ kept (drop e els)

  scan-element :
      (n i : ℕ) (els : List (Option A))
      → n + i ≡ length els
      → FirstElement els i (scan false n i els)
  unfolding scan
  scan-element zero i els l = record { after = omega arith; inside = omega arith; same = refl }
  scan-element (suc n) i els l =
      let (x, at) = found i els (omega arith) in
      elim (Option-cases x) [
        | inl e ↦
            let at' = at ∙ ap some e in
            let ih = scan-element n (i + 1) els (omega arith) in
            rw at' (record {
              after = omega (arith, ih.after);
              inside = ih.inside;
              same = ap kept (drop-next i els none at') ∙ ih.same;
            })
        | inr (a, e) ↦
            rw (at ∙ ap some e) (record { after = omega arith; inside = omega arith; same = refl })
      ]

  take_whole : (xs : List (Option A)) (n : ℕ) → length xs ≤ n → take n xs ≡ xs
  take_whole [] zero h = refl
  take_whole [] (suc n) h = refl
  take_whole (x ∷ xs) zero h = absurd (omega arith)
  take_whole (x ∷ xs) (suc n) h = ap (λ l. x ∷ l) (take_whole xs n (omega arith))

  -- The elements, in order, with no hole among them.
  abbrev pub Compacted : SparseVector A → SparseVector A → Type ℓ
  Compacted v w = (kept w.els ≡ kept v.els) × Full w.els

  kept-split :
      (els : List (Option A)) (h e : ℕ)
      → get_elem? els h ≡ some none
      → FirstElement els (h + 1) e
      → kept (take h els) ++ kept (drop e els) ≡ kept els
  kept-split els h e hole first =
      ap (λ l. kept (take h els) ++ l) (sym (ap kept (drop-next h els none hole) ∙ first.same))
      ∙ sym (kept-append (take h els) (drop h els))
      ∙ ap kept (take-append-drop h els)

  -- `compact` keeps the elements of the vector, in their order, and leaves no hole among them.
  pub compact-Compacted : (v : SparseVector A) → Compacted v (compact v)
  unfolding compact Keeps
  compact-Compacted v =
      let size = length v.els in
      let h = scan true size 0 v.els in
      let first = scan-hole size 0 v.els (omega arith) tt in
      elim (Bool-cases (h == size)) [
        | inl e ↦
            let whole = take_whole v.els h (ground arith) in
            rw e (refl, subst Full whole first.full)
        | inr ne ↦
            let below : h < length v.els = ground (arith, first.inside) in
            let el = scan false (size - (h + 1)) (h + 1) v.els in
            let next = scan-element (size - (h + 1)) (h + 1) v.els (omega arith) in
            let all = kept-split v.els h el (first.hole below) next in
            elim (Bool-cases (el == size)) [
              | inl e ↦
                  let nothing = drop_all el v.els (ground arith) in
                  rw (ne, e)
                    (
                      sym (
                            ap (λ d. kept (take h v.els) ++ kept d) nothing
                            ∙ append-nil (kept (take h v.els)))
                          ∙ all,
                      first.full,
                    )
              | inr ne' ↦
                  let m =
                    moved (size - el) h el v.els (omega (arith, next.after))
                      (omega (arith, next.inside)) first.full in
                  rw (ne, ne') (m.0 ∙ all, m.1)
            ]
      ]
