-- ===== src/Memory/Physical/Hint.antt =====
-- `FirstFreePage` is a hint: no page below it is free. Every operation keeps this, and so
-- `request_page` finds the lowest free page, or there is none.
use lensor_os.Prelude.{
  ℕ, zero, suc, ◌+◌, ◌*◌, ◌/◌, ◌≡◌, ◌≤◌, ◌<◌, ◌⊎◌, inl, inr, true, false, arith, ltb, if◌then◌else◌,
  ◌==◌,
}
use lensor_os.Prelude.Words.{add64}
use lensor_os.Memory.Bitmap
use lensor_os.Memory.Bitmap.Laws.{get_outside, put_outside}
use lensor_os.Memory.Physical.{
  Physical, Request, address, null, page_size, lock_page, lock_rounds, free_page_impl, free_rounds,
}
use lensor_os.Memory.Physical.Locks.{
  locked, IsValid, InMap, locked-lock_page, locked-free_page, lock_page-IsValid, free_page-IsValid,
}

-- Every page below the hint is locked.
abbrev pub HintHolds : Physical → Type 0
HintHolds s = (j : ℕ) → j < s.first_free_page → locked s j ≡ true

module _ (s : Physical) (addr : ℕ) where
  pub first-lock_page : (lock_page addr s).first_free_page ≡ s.first_free_page
  unfolding lock_page
  first-lock_page = ground arith

  pub total-lock_page : (lock_page addr s).total_pages ≡ s.total_pages
  unfolding lock_page
  total-lock_page = ground arith

  pub total-free_page : (free_page_impl addr s).total_pages ≡ s.total_pages
  unfolding free_page_impl
  total-free_page = ground arith

  first-free_page :
      InMap s (addr / page_size)
      → (free_page_impl addr s).first_free_page
        ≡ (if ltb (addr / page_size) s.first_free_page then addr / page_size else s.first_free_page)
  unfolding free_page_impl
  first-free_page h = ground (arith, Bitmap.Laws.put-ok s.page_map (addr / page_size) false)

  -- A page beyond the map is neither locked nor freed, and no counter moves.
  pub lock_page_outside : s.page_map.size * 8 ≤ addr / page_size → lock_page addr s ≡ s
  unfolding lock_page
  lock_page_outside h = ground (
    arith,
    put_outside s.page_map (addr / page_size) true,
    get_outside s.page_map (addr / page_size),
  )

  pub free_page_outside : s.page_map.size * 8 ≤ addr / page_size → free_page_impl addr s ≡ s
  unfolding free_page_impl
  free_page_outside h = ground (arith, put_outside s.page_map (addr / page_size) false)

module _ (s : Physical) (v : IsValid s) (hint : HintHolds s) (addr : ℕ) where
  InMap-cases : InMap s (addr / page_size) ⊎ (s.page_map.size * 8 ≤ addr / page_size)
  InMap-cases = ground arith

  pub lock_page-HintHolds : HintHolds (lock_page addr s)
  lock_page-HintHolds j h = elim InMap-cases [
    | inl within ↦ ground (arith, hint j, first-lock_page s addr, locked-lock_page s v addr j)
    | inr out ↦ ground (arith, hint j, lock_page_outside s addr)
  ]

  pub free_page-HintHolds : HintHolds (free_page_impl addr s)
  free_page-HintHolds j h = elim InMap-cases [
    | inl within ↦ ground (arith, hint j, first-free_page s addr, locked-free_page s v addr j)
    | inr out ↦ ground (arith, hint j, free_page_outside s addr)
  ]

pub lock_rounds-HintHolds :
    (n i addr : ℕ) (s : Physical) → IsValid s → HintHolds s → HintHolds (lock_rounds n i addr s)
unfolding lock_rounds
lock_rounds-HintHolds zero i addr s v h = h
lock_rounds-HintHolds (suc n) i addr s v h =
    let a = add64 addr (i * page_size) in
    lock_rounds-HintHolds n (i + 1) addr _ (lock_page-IsValid s v a) (lock_page-HintHolds s v h a)

pub free_rounds-HintHolds :
    (n i addr : ℕ) (s : Physical) → IsValid s → HintHolds s → HintHolds (free_rounds n i addr s)
unfolding free_rounds
free_rounds-HintHolds zero i addr s v h = h
free_rounds-HintHolds (suc n) i addr s v h =
    let a = add64 addr (i * page_size) in
    free_rounds-HintHolds n (i + 1) addr _ (free_page-IsValid s v a) (free_page-HintHolds s v h a)

-- What `request_page` promises: the lowest page that was free is locked, no other page changes, and
-- the hint moves past it; or every page is locked, and `nullptr` is returned.
pub record Granted (s : Physical) (page : ℕ) (r : Request) (s' : Physical) : Type 0 where
  pub in_memory : page < s.total_pages
  pub was_free : locked s page ≡ false
  pub lowest : (j : ℕ) → j < page → locked s j ≡ true
  pub at : r ≡ address (page * page_size)
  pub only : (j : ℕ) → locked s' j ≡ (if page == j then true else locked s j)
  pub past : s'.first_free_page ≡ page + 1

pub record Exhausted (s : Physical) (r : Request) (s' : Physical) : Type 0 where
  pub full : (j : ℕ) → j < s.total_pages → locked s j ≡ true
  pub below : (j : ℕ) → j < s'.first_free_page → locked s j ≡ true
  pub nothing : r ≡ null
  pub same_map : s'.page_map ≡ s.page_map

abbrev pub Served : Physical → Request × Physical → Type 0
Served s (r, s') = ((page : ℕ) × Granted s page r s') ⊎ Exhausted s r s'
