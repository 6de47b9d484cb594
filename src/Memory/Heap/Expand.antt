-- ===== src/Memory/Heap/Expand.antt =====
-- `expand_heap` and `init_heap`, kernel/src/memory/heap.cpp, on the list of segments.
use lensor_os.Prelude.{
  ℕ, ◌+◌, ◌-◌, ◌/◌, ◌≡◌, ◌∙◌, refl, sym, subst, ◌≤◌, ◌<◌, true, none, some, List, [], ◌∷◌, ◌++◌,
  arith, append_assoc, Option, if◌then◌else◌, Option-cases, Bool-cases, inl, inr,
}
use lensor_os.Prelude.Words.{u64_mod, add64, sub64}
use lensor_os.Memory.Physical.{page_size}
use lensor_os.Memory.Paging.{PageTables}
use lensor_os.Memory.Heap.Granted.{grants, map_rounds-Mapped, expansion_requests}
use lensor_os.Memory.Heap.{
  Heap, heap_virtual_base, header_size, map_rounds, init_heap, set_next, append_segment, expansion,
  expand_heap, combine_backward, combine_forward, absorb, set_last, is_last,
}
use lensor_os.Memory.Heap.Chain.{Segment, after, past, cut, frame, join, past-append, final-append}
use lensor_os.Memory.Heap.Sound.{Sound, place, header_lem, extent}
use lensor_os.Memory.Heap.Combine.{absorb_into, combine_backward-Sound}

-- The page tables concern no header.
with_tables :
    (t : PageTables) (h : Heap) (segs : List Segment)
    → Sound h segs
    → Sound (record h { tables = t }) segs
with_tables t h segs v = record {
  start = v.start;
  populated = v.populated;
  small = v.small;
  chain = v.chain;
  last = v.last;
  ends = v.ends;
}

-- A change of headers keeps the page tables and the page maps.
record KeepsTables (h h' : Heap) : Type 0 where
  tables : h'.tables ≡ h.tables
  maps : h'.page_maps ≡ h.page_maps

kept : (h : Heap) → KeepsTables h h
kept h = record { tables = refl; maps = refl }

set_last-KeepsTables : (o : Option ℕ) (last : ℕ) (h : Heap) → KeepsTables h (set_last o last h)
unfolding set_last
set_last-KeepsTables none last h = kept h
set_last-KeepsTables (some p) last h = record { tables = refl; maps = refl }

absorb-KeepsTables : (this next : ℕ) (h : Heap) → KeepsTables h (absorb this next h)
unfolding absorb
absorb-KeepsTables this next h =
    let k =
      set_last-KeepsTables (h.headers next).next this
        (record h { last_header = if is_last next h then some this else h.last_header }) in
    record { tables = k.tables; maps = k.maps }

combine_forward-KeepsTables : (this : ℕ) (h : Heap) → KeepsTables h (combine_forward this h)
unfolding combine_forward
combine_forward-KeepsTables this h = elim (Option-cases (h.headers this).next) [
  | inl e ↦ rw (combine_forward, e) (kept h)
  | inr (next, e) ↦ elim (Bool-cases (h.headers next).free) [
    | inl free ↦ rw (combine_forward, e, free) (absorb-KeepsTables this next h)
    | inr used ↦ rw (combine_forward, e, used) (kept h)
  ]
]

combine_backward-KeepsTables : (this : ℕ) (h : Heap) → KeepsTables h (combine_backward this h)
unfolding combine_backward
combine_backward-KeepsTables this h = elim (Option-cases (h.headers this).last) [
  | inl e ↦ rw (combine_backward, e) (kept h)
  | inr (last, e) ↦ elim (Bool-cases (h.headers last).free) [
    | inl free ↦ rw (combine_backward, e, free) (combine_forward-KeepsTables last h)
    | inr used ↦ rw (combine_backward, e, used) (kept h)
  ]
]

append_segment-KeepsTables : (bytes : ℕ) (h : Heap) → KeepsTables h (append_segment bytes h)
unfolding append_segment set_next
append_segment-KeepsTables bytes h = elim (Option-cases h.last_header) [
  | inl e ↦ rw (append_segment, e) (record { tables = refl; maps = refl })
  | inr (p, e) ↦ rw (append_segment, e) (record { tables = refl; maps = refl })
]

-- The segment that an expansion by a number of bytes appends.
abbrev pub extension : ℕ → Segment
extension bytes = record { length = bytes - header_size; free = true }

append_segment-Sound :
    (bytes : ℕ) (h : Heap) (xs : List Segment) (s : Segment)
    → header_size ≤ bytes
    → h.heap_end + bytes < u64_mod
    → Sound h (xs ++ (s ∷ []))
    → Sound (append_segment bytes h) (xs ++ (s ∷ extension bytes ∷ []))
unfolding append_segment set_next
append_segment-Sound bytes h xs s wide fits v =
    let a = place xs in
    let e : h.last_header ≡ some a = v.last ∙ final-append none heap_virtual_base xs (s ∷ []) in
    let k = header_lem h xs s [] v in
    let ext : h.heap_end ≡ after a s = sym (extent h xs s [] v) in
    let size : sub64 bytes header_size ≡ bytes - header_size = omega arith in
    let sum : add64 (after a s) bytes ≡ after a s + bytes = omega (arith, ext) in
    let (front, _) = cut h.headers none heap_virtual_base xs (s ∷ []) none v.chain in
    rw (append_segment, e, set_next, k, ext, size, sum)
      (record {
        start = v.start;
        populated = omega (arith, v.populated, ext);
        small = omega (arith, ext);
        chain =
            join _ none heap_virtual_base xs (s ∷ extension bytes ∷ []) none
              (frame h.headers _ none heap_virtual_base xs (some a) front (λ b l u. ground arith))
              (ground arith, (ground arith, tt));
        last = sym (final-append none heap_virtual_base xs (s ∷ extension bytes ∷ []));
        ends = sym (past-append heap_virtual_base xs (s ∷ extension bytes ∷ []) ∙ omega arith);
      })

-- What an expansion makes of the segments: the last one takes the new bytes if it is free.
abbrev pub grow : ℕ → List Segment → List Segment
grow bytes [] = []
grow bytes (s ∷ []) = absorb_into s (extension bytes) []
grow bytes (s ∷ t ∷ rest) = s ∷ grow bytes (t ∷ rest)

pub past-grow :
    (bytes a : ℕ) (s : Segment) (rest : List Segment)
    → header_size ≤ bytes
    → past a (grow bytes (s ∷ rest)) ≡ past a (s ∷ rest) + bytes
past-grow bytes a s [] wide = ground arith
past-grow bytes a s (t ∷ rest) wide = past-grow bytes (after a s) t rest wide

-- What an expansion leaves: a heap laid out as the list is then, and what is granted further.
pub record Expanded (k : ℕ) (h : Heap) (segs : List Segment) (o : Option Heap) : Type 0 where
  pub heap : Heap
  pub done : o ≡ some heap
  pub sound : Sound heap segs
  pub left : grants k heap.tables.physical ≡ true
  pub maps : heap.page_maps ≡ h.page_maps

expand_heap_step :
    (n : ℕ) (h mapped : Heap)
    → map_rounds (expansion n / page_size) 0 h.heap_end h ≡ some mapped
    → expand_heap n h ≡ some (combine_backward h.heap_end (append_segment (expansion n) mapped))
unfolding expand_heap
expand_heap_step n h mapped e = rw (expand_heap, e) refl

expand_last :
    (n k : ℕ) (h : Heap) (xs : List Segment) (s : Segment)
    → grants (expansion_requests n h + k) h.tables.physical ≡ true
    → header_size ≤ expansion n
    → h.heap_end + expansion n < u64_mod
    → Sound h (xs ++ (s ∷ []))
    → Expanded k h (xs ++ absorb_into s (extension (expansion n)) []) (expand_heap n h)
expand_last n k h xs s g wide fits v =
    let m = map_rounds-Mapped (expansion n / page_size) 0 h.heap_end k h g in
    let mapped : Heap = record h { tables = m.tables } in
    let appended = append_segment (expansion n) mapped in
    let a = append_segment-KeepsTables (expansion n) mapped in
    let c = combine_backward-KeepsTables h.heap_end appended in
    record {
      heap = combine_backward h.heap_end appended;
      done = expand_heap_step n h mapped m.mapped;
      sound =
          subst
            (λ (b : ℕ).
              Sound (combine_backward b appended)
                (xs ++ absorb_into s (extension (expansion n)) []))
            (extent h xs s [] v)
            (combine_backward-Sound appended xs s (extension (expansion n)) [] (
              append_segment-Sound (expansion n) mapped xs s wide fits
                (with_tables m.tables h _ v)));
      left = subst (λ u. grants k u.physical ≡ true) (sym (c.tables ∙ a.tables)) m.left;
      maps = c.maps ∙ a.maps;
    }

pub expand_heap-Expanded :
    (n k : ℕ) (h : Heap) (xs : List Segment) (s : Segment) (ys : List Segment)
    → grants (expansion_requests n h + k) h.tables.physical ≡ true
    → header_size ≤ expansion n
    → h.heap_end + expansion n < u64_mod
    → Sound h (xs ++ (s ∷ ys))
    → Expanded k h (xs ++ grow (expansion n) (s ∷ ys)) (expand_heap n h)
expand_heap-Expanded n k h xs s [] g wide fits v = expand_last n k h xs s g wide fits v
expand_heap-Expanded n k h xs s (y ∷ ys) g wide fits v =
    let v' = rw (sym (append_assoc xs (s ∷ []) (y ∷ ys))) at v in
    let later = expand_heap-Expanded n k h (xs ++ (s ∷ [])) y ys g wide fits v' in
    subst (λ segs. Expanded k h segs (expand_heap n h))
      (append_assoc xs (s ∷ []) (grow (expansion n) (y ∷ ys))) later

-- The heap that `init_heap` makes is one free segment.
pub init_heap-Sound : (h : Heap) → Sound (init_heap h) (record { length = 4064; free = true } ∷ [])
unfolding init_heap
init_heap-Sound h = record {
  start = refl;
  populated = ground arith;
  small = ground arith;
  chain = (ground arith, tt);
  last = refl;
  ends = refl;
}
