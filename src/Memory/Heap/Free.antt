-- ===== src/Memory/Heap/Free.antt =====
-- `free`, kernel/src/memory/heap.cpp: the block is in use no more, and no other is concerned.
use lensor_os.Prelude.{
  ℕ, ◌+◌, ◌≡◌, ◌∙◌, refl, sym, ap, ap₂, subst, ◌≤◌, ◌<◌, true, false, List, [], ◌∷◌, ◌++◌, arith,
  Bool-cases, inl, inr, append_assoc, ◌⊎◌,
}
use lensor_os.Prelude.Words.{u64_mod, sub64}
use lensor_os.Memory.Heap.{
  Heap, heap_virtual_base, header_size, looks_like_heap, mark, free, combine_forward,
  combine_backward,
}
use lensor_os.Memory.Heap.Chain.{Segment, after, past, past-append, past-le}
use lensor_os.Memory.Heap.Sound.{Sound, place, room}
use lensor_os.Memory.Heap.Combine.{
  absorb_next, absorb_into, combine_forward-Sound, combine_backward-Sound, combine_backward_first,
  merged,
}
use lensor_os.Memory.Heap.Split.{mark-Sound}
use lensor_os.Memory.Heap.Live.{
  Blocks, Added, live, live-append, live-absorb_next, live-absorb_into,
}

last_cases :
    (xs : List Segment) → (xs ≡ []) ⊎ (ws : List Segment) × (p : Segment) × (xs ≡ ws ++ (p ∷ []))
last_cases [] = inl refl
last_cases (x ∷ xs) = elim (last_cases xs) [
  | inl e ↦ inr ([], x, ap (λ (l : List Segment). x ∷ l) e)
  | inr (ws, p, e) ↦ inr (x ∷ ws, p, ap (λ (l : List Segment). x ∷ l) e)
]

-- A segment with those after it is still a segment and others after it.
absorb_next_cons :
    (s : Segment) (ys : List Segment)
    → (t : Segment) × (zs : List Segment) × (absorb_next s ys ≡ t ∷ zs)
absorb_next_cons s [] = (s, [], refl)
absorb_next_cons s (y ∷ ys) = elim (Bool-cases y.free) [
  | inl f ↦ (merged s y, ys, ground arith)
  | inr f ↦ (s, y ∷ ys, ground arith)
]

-- `combine_backward` at an address leaves a sound heap with the blocks given.
abbrev Backed : Heap → ℕ → Blocks → Type 0
Backed h a blocks =
    (segs : List Segment) × Sound (combine_backward a h) segs
    × (live heap_virtual_base segs ≡ blocks)

Backed-first :
    (h : Heap) (t : Segment) (zs : List Segment)
    → Sound h (t ∷ zs)
    → Backed h heap_virtual_base (live heap_virtual_base (t ∷ zs))
Backed-first h t zs v = (
  t ∷ zs,
  subst (λ (h' : Heap). Sound h' (t ∷ zs)) (sym (combine_backward_first h t zs v)) v,
  refl,
)

Backed-after :
    (h : Heap) (ws : List Segment) (p t : Segment) (zs : List Segment)
    → Sound h (ws ++ (p ∷ t ∷ zs))
    → Backed h (after (place ws) p) (live heap_virtual_base (ws ++ (p ∷ t ∷ zs)))
Backed-after h ws p t zs v = (
  ws ++ absorb_into p t zs,
  combine_backward-Sound h ws p t zs v,
  live-append heap_virtual_base ws (absorb_into p t zs)
      ∙ ap (λ (l : Blocks). live heap_virtual_base ws ++ l) (live-absorb_into (place ws) p t zs)
      ∙ sym (live-append heap_virtual_base ws (p ∷ t ∷ zs)),
)

Backed-snoc :
    (h : Heap) (ws : List Segment) (p t : Segment) (zs : List Segment)
    → Sound h ((ws ++ (p ∷ [])) ++ (t ∷ zs))
    → Backed h (place (ws ++ (p ∷ []))) (live heap_virtual_base ((ws ++ (p ∷ [])) ++ (t ∷ zs)))
Backed-snoc h ws p t zs v =
    rw (append_assoc ws (p ∷ []) (t ∷ zs), past-append heap_virtual_base ws (p ∷ []))
      (Backed-after h ws p t zs (rw (append_assoc ws (p ∷ []) (t ∷ zs)) at v))

backed_lem :
    (h : Heap) (xs : List Segment) (t : Segment) (zs : List Segment)
    → Sound h (xs ++ (t ∷ zs))
    → Backed h (place xs) (live heap_virtual_base (xs ++ (t ∷ zs)))
backed_lem h xs t zs v =
    let Goal = λ (l : List Segment).
      Sound h (l ++ (t ∷ zs)) → Backed h (place l) (live heap_virtual_base (l ++ (t ∷ zs))) in
    elim (last_cases xs) [
      | inl e ↦ subst Goal (sym e) (Backed-first h t zs) v
      | inr (ws, p, e) ↦ subst Goal (sym e) (Backed-snoc h ws p t zs) v
    ]

free_step :
    (h : Heap) (a : ℕ)
    → heap_virtual_base ≤ a
    → a + header_size < u64_mod
    → free (a + header_size) h ≡ combine_backward a (combine_forward a (mark a true h))
unfolding free
free_step h a l u =
    let e : sub64 (a + header_size) header_size ≡ a = omega arith in
    let g : looks_like_heap (a + header_size) ≡ true = ground arith in rw (free, g, e) refl

-- The block of a segment that is freed is gone, and the others are as before.
pub free_lem :
    (h : Heap) (xs : List Segment) (s : Segment) (ys : List Segment)
    → Sound h (xs ++ (s ∷ ys))
    → (segs : List Segment) × Sound (free (place xs + header_size) h) segs
      × (live heap_virtual_base segs ≡ live heap_virtual_base xs ++ live (after (place xs) s) ys)
free_lem h xs s ys v =
    let freed = record s { free = true } in
    let v' = combine_forward-Sound _ xs freed ys (mark-Sound h xs s true ys v) in
    let (t, zs, e) = absorb_next_cons freed ys in
    let (segs, v'', e') = backed_lem _ xs t zs (rw e at v') in
    let step =
      free_step h (place xs) (past-le heap_virtual_base xs)
        (omega (arith, room h xs s ys v, v.small)) in
    (
      segs,
      subst (λ (h' : Heap). Sound h' segs) (sym step) v'',
      e'
          ∙ ap (λ (l : List Segment). live heap_virtual_base (xs ++ l)) (sym e)
          ∙ live-append heap_virtual_base xs (absorb_next freed ys)
          ∙ ap (λ (l : Blocks). live heap_virtual_base xs ++ l)
              (live-absorb_next (place xs) freed ys refl),
    )

-- Where the segment of a block in use stands among the segments.
record Placed (p n a : ℕ) (segs : List Segment) (before behind : Blocks) : Type 0 where
  xs : List Segment
  s : Segment
  ys : List Segment
  split : segs ≡ xs ++ (s ∷ ys)
  at : past a xs + header_size ≡ p
  before_it : live a xs ≡ before
  behind_it : live (after (past a xs) s) ys ≡ behind

Placed-free :
    (p n a : ℕ) (s : Segment) (rest : List Segment) (before behind : Blocks)
    → s.free ≡ true
    → Placed p n (after a s) rest before behind
    → Placed p n a (s ∷ rest) before behind
Placed-free p n a s rest before behind f w = record {
  xs = s ∷ w.xs;
  s = w.s;
  ys = w.ys;
  split = ap (λ (l : List Segment). s ∷ l) w.split;
  at = w.at;
  before_it = rw f w.before_it;
  behind_it = w.behind_it;
}

Placed-used :
    (p n a : ℕ) (s : Segment) (rest : List Segment) (before behind : Blocks)
    → s.free ≡ false
    → Placed p n (after a s) rest before behind
    → Placed p n a (s ∷ rest) ((a + header_size, s.length) ∷ before) behind
Placed-used p n a s rest before behind f w = record {
  xs = s ∷ w.xs;
  s = w.s;
  ys = w.ys;
  split = ap (λ (l : List Segment). s ∷ l) w.split;
  at = w.at;
  before_it = rw f (ap (λ (l : Blocks). (a + header_size, s.length) ∷ l) w.before_it);
  behind_it = w.behind_it;
}

Placed-head :
    (p n a : ℕ) (s : Segment) (rest : List Segment) (before behind : Blocks)
    → s.free ≡ false
    → ((before' : Blocks)
        → live (after a s) rest ≡ before' ++ ((p, n) ∷ behind)
        → Placed p n (after a s) rest before' behind)
    → (a + header_size, s.length) ∷ live (after a s) rest ≡ before ++ ((p, n) ∷ behind)
    → Placed p n a (s ∷ rest) before behind
Placed-head p n a s rest [] behind f later e = record {
  xs = [];
  s = s;
  ys = rest;
  split = refl;
  at = cc;
  before_it = refl;
  behind_it = cc;
}
Placed-head p n a s rest (b ∷ before) behind f later e =
    let tails : live (after a s) rest ≡ before ++ ((p, n) ∷ behind) = cc in
    let heads : (a + header_size, s.length) ≡ b = cc in
    subst (λ (c : ℕ × ℕ). Placed p n a (s ∷ rest) (c ∷ before) behind) heads
      (Placed-used p n a s rest before behind f (later before tails))

placed :
    (p n a : ℕ) (segs : List Segment) (before behind : Blocks)
    → live a segs ≡ before ++ ((p, n) ∷ behind)
    → Placed p n a segs before behind
placed p n a [] [] behind e = absurd cc
placed p n a [] (b ∷ before) behind e = absurd cc
placed p n a (s ∷ rest) before behind e = elim (Bool-cases s.free) [
  | inl f ↦
      Placed-free p n a s rest before behind f
        (placed p n (after a s) rest before behind (rw f at e))
  | inr f ↦
      Placed-head p n a s rest before behind f
        (λ before'. placed p n (after a s) rest before' behind) (rw f at e)
]

-- free of the address of a block in use in a sound heap leaves a sound heap in which that block is
-- in use no more and every other one is where it was, with the length it had.
pub free-Added :
    (p n : ℕ) (h : Heap) (segs : List Segment) (others : Blocks)
    → Sound h segs
    → Added p n others (live heap_virtual_base segs)
    → (segs' : List Segment) × Sound (free p h) segs' × (live heap_virtual_base segs' ≡ others)
free-Added p n h segs others v (before, behind, e, e') =
    let w = placed p n heap_virtual_base segs before behind e' in
    let (segs', v', k) = free_lem h w.xs w.s w.ys (rw (w.split) at v) in
    (
      segs',
      subst (λ (q : ℕ). Sound (free q h) segs') w.at v',
      k ∙ ap₂ (λ (l r : Blocks). l ++ r) w.before_it w.behind_it ∙ sym e,
    )
