-- ===== src/Memory/Heap/Combine.antt =====
-- `combine_forward` and `combine_backward`, kernel/src/memory/heap.cpp, on the list of segments.
use lensor_os.Prelude.{
  ℕ, ◌+◌, ◌≡◌, ◌∙◌, refl, sym, subst, ◌<◌, true, false, Bool, Option, none, some, List, [], ◌∷◌,
  ◌++◌, arith, if◌then◌else◌, ◌==◌,
}
use lensor_os.Prelude.Words.{add64}
use lensor_os.Memory.Heap.{
  Heap, heap_virtual_base, header_size, write, set_last, is_last, absorb, combine_forward,
  combine_backward,
}
use lensor_os.Memory.Heap.Chain.{Segment, after, past-le, final-append}
use lensor_os.Memory.Heap.Sound.{
  Sound, place, header_lem, second_lem, extent, changed, write_at, write_off, final_above,
}

abbrev pub merged : Segment → Segment → Segment
merged s t = record { length = s.length + t.length + header_size; free = s.free }

module _ (h : Heap) (a b : ℕ) (s t : Segment) (back : Option ℕ) where
  -- What `absorb` makes of the headers and of `sLastHeader`.
  absorb_end :
      h.headers a ≡ record { last = back; next = some b; length = s.length; free = s.free }
      → h.headers b ≡ record { last = some a; next = none; length = t.length; free = t.free }
      → absorb a b h ≡ record h {
        headers =
            write a
              (record {
                last = back;
                next = none;
                length = add64 (add64 s.length t.length) header_size;
                free = s.free;
              })
              h.headers;
        last_header = if is_last b h then some a else h.last_header;
      }
  unfolding absorb set_last
  absorb_end e e' = rw (e', e, e') refl

  absorb_between :
      (c : ℕ)
      → b < c
      → a < b
      → h.headers a ≡ record { last = back; next = some b; length = s.length; free = s.free }
      → h.headers b ≡ record { last = some a; next = some c; length = t.length; free = t.free }
      → absorb a b h ≡ record h {
        headers =
            write a
              (record {
                last = back;
                next = some c;
                length = add64 (add64 s.length t.length) header_size;
                free = s.free;
              })
              (write c (record (h.headers c) { last = some a }) h.headers);
        last_header = if is_last b h then some a else h.last_header;
      }
  unfolding absorb set_last
  absorb_between c l u e e' =
      let n1 : (c == b) ≡ false = ground arith in
      let n2 : (c == a) ≡ false = ground arith in rw (e', n1, n2, e, e') refl

module _ (h : Heap) (xs : List Segment) (s t : Segment) where
  merged_length :
      (ys : List Segment)
      → Sound h (xs ++ (s ∷ t ∷ ys))
      → add64 (add64 s.length t.length) header_size ≡ (merged s t).length
  merged_length ys v =
      let r = extent h xs s (t ∷ ys) v in
      omega (arith, r, v.small, past-le (after (after (place xs) s) t) ys)

  latest_end : Sound h (xs ++ (s ∷ t ∷ [])) → is_last (after (place xs) s) h ≡ true
  latest_end v =
      let e : h.last_header ≡ some (after (place xs) s) =
        v.last ∙ final-append none heap_virtual_base xs (s ∷ t ∷ []) in
      rw e (ground arith)

  absorb-Sound_end :
      Sound h (xs ++ (s ∷ t ∷ []))
      → Sound (absorb (place xs) (after (place xs) s) h) (xs ++ (merged s t ∷ []))
  absorb-Sound_end v =
      let a = place xs in
      let b = after a s in
      let e = absorb_end h a b s t _ (header_lem h xs s (t ∷ []) v) (second_lem h xs s t [] v) in
      rw (e, merged_length [] v, latest_end v)
        (changed h _ _ xs s (t ∷ []) (merged s t) [] [] v (omega arith) (write_at a _ h.headers, tt)
          (λ c u. write_off a c _ h.headers (omega arith)) tt
          (sym (final-append none heap_virtual_base xs (merged s t ∷ []))))

  absorb-Sound_between :
      (y : Segment) (ys : List Segment)
      → Sound h (xs ++ (s ∷ t ∷ y ∷ ys))
      → Sound (absorb (place xs) (after (place xs) s) h) (xs ++ (merged s t ∷ y ∷ ys))
  absorb-Sound_between y ys v =
      let a = place xs in
      let b = after a s in
      let c = after b t in
      let k = second_lem h xs s t (y ∷ ys) v in
      let e =
        absorb_between h a b s t _ c (omega arith) (omega arith) (header_lem h xs s (t ∷ y ∷ ys) v)
          k in
      let same : c ≡ after a (merged s t) = omega arith in
      let off : is_last b h ≡ false =
        rw (v.last, final-append none heap_virtual_base xs (s ∷ t ∷ y ∷ ys))
          (final_above c b (after c y) ys (omega arith) (omega arith)) in
      rw (e, merged_length (y ∷ ys) v, off, same)
        (changed h _ _ xs s (t ∷ []) (merged s t) [] (y ∷ ys) v same (ground arith, tt)
          (λ d u. ground arith)
          (
            ground (arith, final-append none heap_virtual_base xs (merged s t ∷ [])),
            λ d u. ground arith,
          )
          (rw (final-append none heap_virtual_base xs (merged s t ∷ y ∷ ys), sym same)
            (v.last ∙ final-append none heap_virtual_base xs (s ∷ t ∷ y ∷ ys))))

-- Two conditionals with one test are related if their branches are.
if_both :
    {A B : Type 0} (c : Bool) (R : A → B → Type 0) {a a' : A} {b b' : B}
    → R a b
    → R a' b'
    → R (if c then a else a') (if c then b else b')
if_both true R l r = l
if_both false R l r = r

-- What `combine_forward` makes of a segment and those after it.
abbrev pub absorb_next : Segment → List Segment → List Segment
absorb_next s [] = s ∷ []
absorb_next s (t ∷ ys) = if t.free then merged s t ∷ ys else s ∷ t ∷ ys

module _ (h : Heap) (xs : List Segment) (s : Segment) where
  absorb-Sound :
      (t : Segment) (ys : List Segment)
      → Sound h (xs ++ (s ∷ t ∷ ys))
      → Sound (absorb (place xs) (after (place xs) s) h) (xs ++ (merged s t ∷ ys))
  absorb-Sound t [] v = absorb-Sound_end h xs s t v
  absorb-Sound t (y ∷ ys) v = absorb-Sound_between h xs s t y ys v

  combine_forward_step :
      (t : Segment) (ys : List Segment)
      → Sound h (xs ++ (s ∷ t ∷ ys))
      → combine_forward (place xs) h
        ≡ (if t.free then absorb (place xs) (after (place xs) s) h else h)
  unfolding combine_forward
  combine_forward_step t ys v =
      rw (combine_forward, header_lem h xs s (t ∷ ys) v, second_lem h xs s t ys v) refl

  pub combine_forward-Sound :
      (ys : List Segment)
      → Sound h (xs ++ (s ∷ ys))
      → Sound (combine_forward (place xs) h) (xs ++ absorb_next s ys)
  unfolding combine_forward
  combine_forward-Sound [] v = rw (combine_forward, header_lem h xs s [] v) v
  combine_forward-Sound (t ∷ ys) v =
      subst (λ (h' : Heap). Sound h' (xs ++ absorb_next s (t ∷ ys)))
        (sym (combine_forward_step t ys v))
        (if_both t.free (λ h' segs. Sound h' (xs ++ segs)) (absorb-Sound t ys v) v)

-- What `combine_backward` makes of a segment with the one before it.
abbrev pub absorb_into : Segment → Segment → List Segment → List Segment
absorb_into p s ys = if p.free then absorb_next p (s ∷ ys) else p ∷ s ∷ ys

module _ (h : Heap) (xs : List Segment) (p s : Segment) (ys : List Segment)
    (v : Sound h (xs ++ (p ∷ s ∷ ys))) where
  combine_backward_step :
      combine_backward (after (place xs) p) h ≡ (if p.free then combine_forward (place xs) h else h)
  unfolding combine_backward
  combine_backward_step =
      rw (combine_backward, second_lem h xs p s ys v, header_lem h xs p (s ∷ ys) v) refl

  pub combine_backward-Sound :
      Sound (combine_backward (after (place xs) p) h) (xs ++ absorb_into p s ys)
  combine_backward-Sound =
      subst (λ (h' : Heap). Sound h' (xs ++ absorb_into p s ys)) (sym combine_backward_step)
        (if_both p.free (λ h' segs. Sound h' (xs ++ segs)) (combine_forward-Sound h xs p (s ∷ ys) v)
          v)

pub combine_backward_first :
    (h : Heap) (s : Segment) (ys : List Segment)
    → Sound h (s ∷ ys)
    → combine_backward heap_virtual_base h ≡ h
unfolding combine_backward
combine_backward_first h s ys v = rw (combine_backward, header_lem h [] s ys v) refl
