-- ===== src/Memory/Heap/Sound.antt =====
-- What it means that the heap of kernel/src/memory/heap.cpp is laid out as a list of segments.
use lensor_os.Prelude.{
  ℕ, ◌≡◌, ◌≢◌, ◌∙◌, sym, ap, ◌≤◌, ◌<◌, false, Option, none, some, List, [], ◌∷◌, ◌++◌, arith, ◌==◌,
}
use lensor_os.Prelude.Words.{u64_mod}
use lensor_os.Memory.Heap.{HeapSegmentHeader, Heap, heap_virtual_base, write}
use lensor_os.Memory.Heap.Chain.{
  Segment, after, past, final, following, Part, Relinked, past-le, past-append, final-append, cut,
  replace-Part,
}

-- The segments tile the heap from its start to its end, each header linked to those beside it, and
-- the last one is known; the heap does not reach past the address space.
pub record Sound (h : Heap) (segs : List Segment) : Type 0 where
  pub start : h.heap_start ≡ heap_virtual_base
  pub populated : h.heap_start < h.heap_end
  pub small : h.heap_end < u64_mod
  pub chain : Part h.headers none heap_virtual_base segs none
  pub last : h.last_header ≡ final none heap_virtual_base segs
  pub ends : h.heap_end ≡ past heap_virtual_base segs

-- Where the segment after the first ones of the heap stands.
abbrev pub place : List Segment → ℕ
place xs = past heap_virtual_base xs

abbrev pub header : List Segment → Segment → List Segment → HeapSegmentHeader
header xs s ys = record {
  last = final none heap_virtual_base xs;
  next = following (after (place xs) s) ys none;
  length = s.length;
  free = s.free;
}

module _ (h : Heap) (xs : List Segment) (s : Segment) (ys : List Segment)
    (v : Sound h (xs ++ (s ∷ ys))) where
  pub header_lem : h.headers (place xs) ≡ header xs s ys
  header_lem = (cut h.headers none heap_virtual_base xs (s ∷ ys) none v.chain).1.0

  pub extent : past (after (place xs) s) ys ≡ h.heap_end
  extent = sym (v.ends ∙ past-append heap_virtual_base xs (s ∷ ys))

  pub room : after (place xs) s ≤ h.heap_end
  room = omega (arith, extent, past-le (after (place xs) s) ys)

pub write_at {ℓ} : {A : Type ℓ} (a : ℕ) (v : A) (f : ℕ → A) → write a v f a ≡ v
write_at a v f = ground arith

pub write_off {ℓ} : {A : Type ℓ} (a b : ℕ) (v : A) (f : ℕ → A) → a ≢ b → write a v f b ≡ f b
write_off a b v f off = ground arith

-- The last of some segments is not one that stands before them.
pub final_above :
    (prev b a : ℕ) (segs : List Segment)
    → b < prev
    → b < a
    → (elim (final (some prev) a segs) [ none ↦ false | some l ↦ b == l ]) ≡ false
final_above prev b a [] u l = ground arith
final_above prev b a (s ∷ rest) u l = final_above a b (after a s) rest l (omega arith)

-- The header after a segment that is not the last one.
pub second_lem :
    (h : Heap) (xs : List Segment) (s t : Segment) (ys : List Segment)
    → Sound h (xs ++ (s ∷ t ∷ ys))
    → h.headers (after (place xs) s) ≡ record {
      last = some (place xs);
      next = following (after (after (place xs) s) t) ys none;
      length = t.length;
      free = t.free;
    }
second_lem h xs s t ys v = (cut h.headers none heap_virtual_base xs (s ∷ t ∷ ys) none v.chain).1.1.0

-- A change of some segments in the middle that keeps their extent keeps the heap sound.
pub changed :
    (h : Heap) (g : ℕ → HeapSegmentHeader) (last : Option ℕ) (xs : List Segment) (old : Segment)
    (olds : List Segment) (new : Segment) (news ys : List Segment)
    → Sound h (xs ++ ((old ∷ olds) ++ ys))
    → past (place xs) (old ∷ olds) ≡ past (place xs) (new ∷ news)
    → Part g
        (final none heap_virtual_base xs)
        (place xs)
        (new ∷ news)
        (following (past (place xs) (new ∷ news)) ys none)
    → ((b : ℕ) → b < place xs → g b ≡ h.headers b)
    → Relinked h.headers g
        (final none heap_virtual_base (xs ++ (new ∷ news)))
        (past (place xs) (new ∷ news))
        ys
    → last ≡ final none heap_virtual_base (xs ++ ((new ∷ news) ++ ys))
    → Sound (record h { headers = g; last_header = last }) (xs ++ ((new ∷ news) ++ ys))
changed h g last xs old olds new news ys v extent middle below relinked latest = record {
  start = v.start;
  populated = v.populated;
  small = v.small;
  chain =
      replace-Part h.headers g none heap_virtual_base xs olds ys old new news v.chain extent middle
        below (rw (final-append none heap_virtual_base xs (new ∷ news)) at relinked);
  last = latest;
  ends =
      v.ends
      ∙ past-append heap_virtual_base xs ((old ∷ olds) ++ ys)
      ∙ past-append (place xs) (old ∷ olds) ys
      ∙ ap (λ (b : ℕ). past b ys) extent
      ∙ sym (past-append (place xs) (new ∷ news) ys)
      ∙ sym (past-append heap_virtual_base xs ((new ∷ news) ++ ys));
}
