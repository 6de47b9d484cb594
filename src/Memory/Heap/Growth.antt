-- ===== src/Memory/Heap/Growth.antt =====
-- Why two expansions are enough for `malloc`, kernel/src/memory/heap.cpp: the free segment that they
-- leave at the end of the heap serves the request.
use lensor_os.Prelude.{
  ℕ, ◌+◌, ◌-◌, ◌≡◌, ◌≢◌, ◌≤◌, true, false, false≢true, Bool, none, List, [], ◌∷◌, arith, leb, ◌&&◌,
}
use lensor_os.Memory.Heap.{header_size}
use lensor_os.Memory.Heap.Chain.{Segment, after}
use lensor_os.Memory.Heap.FirstFit.{first_fit}
use lensor_os.Memory.Heap.Expand.{grow}

-- The last segment is free and at least so long.
abbrev pub ends_free : ℕ → List Segment → Bool
ends_free m [] = false
ends_free m (s ∷ []) = s.free && leb m s.length
ends_free m (s ∷ t ∷ rest) = ends_free m (t ∷ rest)

ends_free-cons :
    (m bytes : ℕ) (s t : Segment) (rest : List Segment)
    → ends_free m (grow bytes (t ∷ rest)) ≡ true
    → ends_free m (s ∷ grow bytes (t ∷ rest)) ≡ true
ends_free-cons m bytes s t [] e = ground arith
ends_free-cons m bytes s t (u ∷ rest) e = e

-- A first expansion leaves a free segment at the end.
pub grow-ends_free :
    (bytes : ℕ) (s : Segment) (rest : List Segment)
    → ends_free (bytes - header_size) (grow bytes (s ∷ rest)) ≡ true
grow-ends_free bytes s [] = ground arith
grow-ends_free bytes s (t ∷ rest) =
    ends_free-cons (bytes - header_size) bytes s t rest (grow-ends_free bytes t rest)

-- A second one lengthens it.
pub grow-longer :
    (bytes m : ℕ) (segs : List Segment)
    → header_size ≤ bytes
    → ends_free m segs ≡ true
    → ends_free (m + bytes) (grow bytes segs) ≡ true
grow-longer bytes m [] wide e = e
grow-longer bytes m (s ∷ []) wide e = ground arith
grow-longer bytes m (s ∷ t ∷ rest) wide e =
    ends_free-cons (m + bytes) bytes s t rest (grow-longer bytes m (t ∷ rest) wide e)

-- A long free segment at the end serves a request, if none before it does.
pub first_fit-ends_free :
    (n a m : ℕ) (segs : List Segment)
    → n + 48 ≤ m
    → ends_free m segs ≡ true
    → first_fit n a segs ≢ none
first_fit-ends_free n a m [] long e = absurd (false≢true e)
first_fit-ends_free n a m (s ∷ []) long e = ground arith
first_fit-ends_free n a m (s ∷ t ∷ rest) long e =
    ground (arith, first_fit-ends_free n (after a s) m (t ∷ rest) long e)
