-- ===== src/Memory/Heap/Split.antt =====
-- `split` and the marking of segments, kernel/src/memory/heap.cpp, on the list of segments.
use lensor_os.Prelude.{
  ℕ, ◌+◌, ◌-◌, ◌≡◌, ◌∙◌, refl, sym, ◌≤◌, ◌<◌, false, Bool, none, some, List, [], ◌∷◌, ◌++◌, arith,
  ◌==◌, ltb,
}
use lensor_os.Prelude.Words.{add64, sub64}
use lensor_os.Memory.Heap.{
  Heap, heap_virtual_base, header_size, heap_byte_align, set_last, mark, insert_header, split,
}
use lensor_os.Memory.Heap.Chain.{Segment, after, final, final-append}
use lensor_os.Memory.Heap.Sound.{Sound, place, header_lem, second_lem, room, changed}

-- Marking a segment changes nothing else.
module _ (h : Heap) (xs : List Segment) (s : Segment) (b : Bool) where
  abbrev pub marked : Segment
  marked = record s { free = b }

  marked_last :
      (ys : List Segment)
      → Sound h (xs ++ (s ∷ ys))
      → h.last_header ≡ final none heap_virtual_base (xs ++ (marked ∷ ys))
  marked_last ys v =
      v.last
      ∙ final-append none heap_virtual_base xs (s ∷ ys)
      ∙ sym (final-append none heap_virtual_base xs (marked ∷ ys))

  pub mark-Sound :
      (ys : List Segment)
      → Sound h (xs ++ (s ∷ ys))
      → Sound (mark (place xs) b h) (xs ++ (marked ∷ ys))
  unfolding mark
  mark-Sound [] v =
      rw (mark, header_lem h xs s [] v)
        (changed h _ _ xs s [] marked [] [] v refl (ground arith, tt) (λ c u. ground arith) tt
          (marked_last [] v))
  mark-Sound (y ∷ ys) v =
      let k = second_lem h xs s y ys v in
      rw (mark, header_lem h xs s (y ∷ ys) v)
        (changed h _ _ xs s [] marked [] (y ∷ ys) v refl (ground arith, tt) (λ c u. ground arith)
          (
            ground (arith, k, final-append none heap_virtual_base xs (marked ∷ [])),
            λ c u. ground arith,
          )
          (marked_last (y ∷ ys) v))

-- The two segments that a split makes of one.
abbrev pub front_part : ℕ → Segment → Segment
front_part n s = record s { length = n }

abbrev pub rest_of : ℕ → Segment → Segment
rest_of n s = record s { length = s.length - n - header_size }

module _ (n : ℕ) (h : Heap) (xs : List Segment) (s : Segment) (wide : heap_byte_align ≤ n)
    (fits : n + 48 ≤ s.length) where
  middle_address :
      (ys : List Segment)
      → Sound h (xs ++ (s ∷ ys))
      → add64 (add64 (place xs) header_size) n ≡ place xs + header_size + n
  middle_address ys v = omega (arith, room h xs s ys v, v.small)

  pub insert-Sound :
      (ys : List Segment)
      → Sound h (xs ++ (s ∷ ys))
      → Sound
          (insert_header (place xs) n (s.length - n - header_size) h)
          (xs ++ (front_part n s ∷ rest_of n s ∷ ys))
  unfolding insert_header set_last
  insert-Sound [] v =
      rw (insert_header, header_lem h xs s [] v, middle_address [] v, header_lem h xs s [] v)
        (changed h _ _ xs s [] (front_part n s) (rest_of n s ∷ []) [] v (omega arith)
          (ground arith, (ground arith, tt)) (λ c u. ground arith) tt
          (sym (final-append none heap_virtual_base xs (front_part n s ∷ rest_of n s ∷ []))))
  insert-Sound (y ∷ ys) v =
      let e = header_lem h xs s (y ∷ ys) v in
      let off : (after (place xs) s == place xs) ≡ false = ground arith in
      let same : after (place xs) s ≡ after (after (place xs) (front_part n s)) (rest_of n s) =
        omega arith in
      rw (insert_header, e, middle_address (y ∷ ys) v, set_last, off, e, same)
        (changed h _ _ xs s [] (front_part n s) (rest_of n s ∷ []) (y ∷ ys) v same
          (ground arith, (ground arith, tt)) (λ c u. ground arith)
          (
            ground (
              arith,
              fits,
              final-append none heap_virtual_base xs (front_part n s ∷ rest_of n s ∷ []),
            ),
            λ c u. ground arith,
          )
          (rw
            (
              final-append none heap_virtual_base xs (front_part n s ∷ rest_of n s ∷ y ∷ ys),
              sym same,
            )
            (v.last ∙ final-append none heap_virtual_base xs (s ∷ y ∷ ys))))

  -- A split of a segment with room for both parts and a header succeeds.
  pub split-Sound :
      (ys : List Segment)
      → Sound h (xs ++ (s ∷ ys))
      → split (place xs) n h ≡ some (insert_header (place xs) n (s.length - n - header_size) h)
  unfolding split
  split-Sound ys v =
      let r = room h xs s ys v in
      let left : sub64 (sub64 s.length n) header_size ≡ s.length - n - header_size =
        omega (arith, r, v.small) in
      let t1 : ltb s.length (add64 n header_size) ≡ false = ground (arith, r, v.small) in
      let t2 : ltb n heap_byte_align ≡ false = ground arith in
      let t3 : ltb (s.length - n - header_size) heap_byte_align ≡ false = ground arith in
      rw (split, header_lem h xs s ys v, left, t1, t2, t3) refl

-- A split of any other segment is refused.
pub split_refused :
    (n : ℕ) (h : Heap) (xs : List Segment) (s : Segment) (ys : List Segment)
    → Sound h (xs ++ (s ∷ ys))
    → n ≤ s.length
    → s.length < n + 48
    → split (place xs) n h ≡ none
unfolding split
split_refused n h xs s ys v l u =
    let r = room h xs s ys v in rw (split, header_lem h xs s ys v) (ground (arith, r, v.small))
