-- ===== src/Memory/Physical/Single.antt =====
-- `request_page` serves the lowest free page, and keeps the allocator well formed.
use lensor_os.Prelude.{
  ℕ, zero, suc, ◌+◌, ◌-◌, ◌*◌, ◌/◌, ◌%◌, ◌≡◌, refl, ap, ◌≤◌, ◌<◌, inl, inr, true, false, arith,
  ◌==◌, Bool-cases,
}
use lensor_os.Prelude.Words.{u64_mod}
use lensor_os.Memory.Physical.{
  Physical, Request, address, page_size, lock_page, request_rounds, request_page,
}
use lensor_os.Memory.Physical.Locks.{locked, IsValid, locked-lock_page}
use lensor_os.Memory.Physical.Hint.{HintHolds, Served, first-lock_page}

-- The hint moves past a locked page.
skip : Physical → Physical
skip s = record s { first_free_page = s.first_free_page + 1 }

skip-HintHolds :
    (s : Physical) → HintHolds s → locked s s.first_free_page ≡ true → HintHolds (skip s)
unfolding skip
skip-HintHolds s hint used j h = elim (Bool-cases (j == s.first_free_page)) [
  | inl e ↦ let e' : j ≡ s.first_free_page = ground arith in rw e' used
  | inr e ↦ hint j (ground arith)
]

Served-skip : (s : Physical) (r : Request × Physical) → Served (skip s) r → Served s r
unfolding skip
Served-skip s r (inl (page, g)) = inl (
  page,
  record {
    in_memory = g.in_memory;
    was_free = g.was_free;
    lowest = g.lowest;
    at = g.at;
    only = g.only;
    past = g.past;
  },
)
Served-skip s r (inr e) =
    inr (record { full = e.full; below = e.below; nothing = e.nothing; same_map = e.same_map })

-- The page that the hint names is free: it is granted.
take : Physical → Request × Physical
take s =
    let held = lock_page ((s.first_free_page * page_size) % u64_mod) s in
    (
      address ((s.first_free_page * page_size) % u64_mod),
      record held { first_free_page = held.first_free_page + 1 },
    )

module _ (s : Physical) (v : IsValid s) (mapped : s.total_pages ≤ 8 * s.page_map.size)
    (fits : s.total_pages * page_size ≤ u64_mod) where
  take-Served :
      HintHolds s
      → s.first_free_page < s.total_pages
      → locked s s.first_free_page ≡ false
      → Served s (take s)
  unfolding take
  take-Served hint below free =
      let page = s.first_free_page in
      let addr = (page * page_size) % u64_mod in
      let e : addr / page_size ≡ page = omega arith in
      inl (
        page,
        record {
          in_memory = below;
          was_free = free;
          lowest = hint;
          at = ap address (omega arith);
          only = λ j. ground (arith, locked-lock_page s v addr j);
          past = ground (arith, first-lock_page s addr);
        },
      )

request_rounds-Served :
    (n : ℕ) (s : Physical)
    → IsValid s
    → s.total_pages ≤ 8 * s.page_map.size
    → s.total_pages * page_size ≤ u64_mod
    → HintHolds s
    → s.total_pages - s.first_free_page ≡ n
    → Served s (request_rounds n s)
unfolding request_rounds skip take
request_rounds-Served zero s v m f hint e =
    inr
      (record { full = λ j h. hint j (omega arith); below = hint; nothing = refl; same_map = refl })
request_rounds-Served (suc n) s v m f hint e = elim (Bool-cases (locked s s.first_free_page)) [
  | inl used ↦ rw used (
      Served-skip s _
        (request_rounds-Served n (skip s) v m f (skip-HintHolds s hint used) (omega arith)))
  | inr free ↦ rw free (take-Served s v m f hint (omega arith) free)
]

-- With the hint in force, `request_page` grants the lowest page that is free, locks it and no
-- other, and moves the hint past it; it returns `nullptr` only if every page is locked.
pub request_page-Served :
    (s : Physical)
    → IsValid s
    → s.total_pages ≤ 8 * s.page_map.size
    → s.total_pages * page_size ≤ u64_mod
    → HintHolds s
    → Served s (request_page s)
unfolding request_page
request_page-Served s v m f hint = request_rounds-Served _ s v m f hint refl
