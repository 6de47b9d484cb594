-- ===== src/Memory/Heap/Chain.antt =====
-- The segments of the heap, kernel/src/memory/heap.cpp, as a list: what it means that headers from
-- an address on are laid out as a list says, with their links, and how such lists are cut, joined
-- and changed in the middle.
use lensor_os.Prelude.{
  ℕ, ◌+◌, ◌≡◌, ◌∙◌, refl, sym, subst, ap, ◌≤◌, ◌<◌, Bool, Option, none, some, List, [], ◌∷◌, ◌++◌,
  arith,
}
use lensor_os.Memory.Heap.{HeapSegmentHeader, header_size}

pub record Segment : Type 0 where
  pub length : ℕ
  pub free : Bool

-- Where the next header stands after a segment at an address, and after a list of segments.
abbrev pub after : ℕ → Segment → ℕ
after a s = a + header_size + s.length

abbrev pub past : ℕ → List Segment → ℕ
past a [] = a
past a (s ∷ rest) = past (after a s) rest

-- The header that stands last in a list of segments, with the one before it if there is none.
abbrev pub final : Option ℕ → ℕ → List Segment → Option ℕ
final prev a [] = prev
final prev a (s ∷ rest) = final (some a) (after a s) rest

abbrev pub following : ℕ → List Segment → Option ℕ → Option ℕ
following a [] stop = stop
following a (_ ∷ _) stop = some a

-- The headers from an address on are those of a list of segments, doubly linked, from the link
-- back of the first to the link onwards of the last.
abbrev pub Part : (ℕ → HeapSegmentHeader) → Option ℕ → ℕ → List Segment → Option ℕ → Type 0
Part f prev a [] stop = Unit
Part f prev a (s ∷ rest) stop =
    (f a ≡ record {
      last = prev;
      next = following (after a s) rest stop;
      length = s.length;
      free = s.free;
    })
    × Part f (some a) (after a s) rest stop

pub past-le : (a : ℕ) (segs : List Segment) → a ≤ past a segs
past-le a [] = omega arith
past-le a (s ∷ rest) = ground (arith, past-le (after a s) rest)

pub past-append : (a : ℕ) (xs ys : List Segment) → past a (xs ++ ys) ≡ past (past a xs) ys
past-append a [] ys = refl
past-append a (x ∷ xs) ys = past-append (after a x) xs ys

pub final-append :
    (prev : Option ℕ) (a : ℕ) (xs ys : List Segment)
    → final prev a (xs ++ ys) ≡ final (final prev a xs) (past a xs) ys
final-append prev a [] ys = refl
final-append prev a (x ∷ xs) ys = final-append (some a) (after a x) xs ys

following-append :
    (a : ℕ) (xs ys : List Segment) (stop : Option ℕ)
    → following a (xs ++ ys) stop ≡ following a xs (following (past a xs) ys stop)
following-append a [] ys stop = refl
following-append a (x ∷ xs) ys stop = refl

pub frame :
    (f g : ℕ → HeapSegmentHeader) (prev : Option ℕ) (a : ℕ) (segs : List Segment) (stop : Option ℕ)
    → Part f prev a segs stop
    → ((b : ℕ) → a ≤ b → b < past a segs → g b ≡ f b)
    → Part g prev a segs stop
frame f g prev a [] stop p same = tt
frame f g prev a (s ∷ rest) stop (e, p) same = (
  same a (omega arith) (omega (arith, past-le (after a s) rest)) ∙ e,
  frame f g (some a) (after a s) rest stop p (λ b l u. same b (omega arith) u),
)

module _ (f : ℕ → HeapSegmentHeader) where
  pub cut :
      (prev : Option ℕ) (a : ℕ) (xs ys : List Segment) (stop : Option ℕ)
      → Part f prev a (xs ++ ys) stop
      → Part f prev a xs (following (past a xs) ys stop)
        × Part f (final prev a xs) (past a xs) ys stop
  cut prev a [] ys stop p = (tt, p)
  cut prev a (x ∷ xs) ys stop (e, p) =
      let (l, r) = cut (some a) (after a x) xs ys stop p in
      ((rw (sym (following-append (after a x) xs ys stop)) e, l), r)

  pub join :
      (prev : Option ℕ) (a : ℕ) (xs ys : List Segment) (stop : Option ℕ)
      → Part f prev a xs (following (past a xs) ys stop)
      → Part f (final prev a xs) (past a xs) ys stop
      → Part f prev a (xs ++ ys) stop
  join prev a [] ys stop l r = r
  join prev a (x ∷ xs) ys stop (e, l) r =
      (rw (following-append (after a x) xs ys stop) e, join (some a) (after a x) xs ys stop l r)

-- How the headers after a changed part relate to those before the change: the first is linked back
-- to the last of the part, and no other differs.
abbrev pub Relinked : (f g : ℕ → HeapSegmentHeader) → Option ℕ → ℕ → List Segment → Type 0
Relinked f g last a [] = Unit
Relinked f g last a (_ ∷ _) = (g a ≡ record (f a) { last = last }) × ((b : ℕ) → a < b → g b ≡ f b)

Relinked-Part :
    (f g : ℕ → HeapSegmentHeader) (prev last stop : Option ℕ) (a : ℕ) (ys : List Segment)
    → Part f prev a ys stop
    → Relinked f g last a ys
    → Part g last a ys stop
Relinked-Part f g prev last stop a [] p r = tt
Relinked-Part f g prev last stop a (y ∷ ys) (e, p) (r, same) = (
  r ∙ ap (λ (c : HeapSegmentHeader). record c { last = last }) e,
  frame f g (some a) (after a y) ys stop p (λ b l _. same b (omega arith)),
)

-- A part in the middle is changed into another of the same extent.
pub replace-Part :
    (f g : ℕ → HeapSegmentHeader) (prev : Option ℕ) (start : ℕ) (xs olds ys : List Segment)
    (old new : Segment) (news : List Segment)
    → Part f prev start (xs ++ ((old ∷ olds) ++ ys)) none
    → past (past start xs) (old ∷ olds) ≡ past (past start xs) (new ∷ news)
    → Part g
        (final prev start xs)
        (past start xs)
        (new ∷ news)
        (following (past (past start xs) (new ∷ news)) ys none)
    → ((b : ℕ) → b < past start xs → g b ≡ f b)
    → Relinked f g
        (final (final prev start xs) (past start xs) (new ∷ news))
        (past (past start xs) (new ∷ news))
        ys
    → Part g prev start (xs ++ ((new ∷ news) ++ ys)) none
replace-Part f g prev start xs olds ys old new news p extent middle below relinked =
    let a = past start xs in
    let (before, rest) = cut f prev start xs ((old ∷ olds) ++ ys) none p in
    let (_, behind) = cut f (final prev start xs) a (old ∷ olds) ys none rest in
    let behind' =
      subst (λ (b : ℕ). Part f (final (final prev start xs) a (old ∷ olds)) b ys none) extent
        behind in
    join g prev start xs ((new ∷ news) ++ ys) none
      (frame f g prev start xs (some a) before (λ b _ u. below b u))
      (join g (final prev start xs) a (new ∷ news) ys none middle
        (Relinked-Part f g _ _ none _ ys behind' relinked))
