-- ===== src/Memory/Heap/Supply.antt =====
-- Free pages and the requests that `expand_heap` and `map` make of them, kernel/src/memory/heap.cpp and
-- physical_memory_manager.cpp.
use lensor_os.Prelude.{
  ℕ, zero, suc, ◌+◌, ◌≡◌, refl, sym, subst, ◌≤◌, ◌<◌, true, false, arith, ◌==◌, ltb, if◌then◌else◌,
  Bool-cases, inl, inr,
}
use lensor_os.Memory.Physical.{Physical, Request, request_page}
use lensor_os.Memory.Physical.Locks.{locked}
use lensor_os.Memory.Physical.Hint.{Served}
use lensor_os.Memory.Physical.Single.{request_page-Served}
use lensor_os.Memory.Physical.Invariant.{IsSound, request_page-IsSound, total-request_page}
use lensor_os.Memory.Paging.{pointer}
use lensor_os.Memory.Heap.Granted.{grants}

-- The free pages among the first `n`.
abbrev pub free_in : ℕ → Physical → ℕ
free_in zero s = 0
free_in (suc n) s = (if locked s n then 0 else 1) + free_in n s

-- A page that is locked leaves one free page less.
free_in-locked :
    (n page : ℕ) (s s' : Physical)
    → locked s page ≡ false
    → ((j : ℕ) → locked s' j ≡ (if page == j then true else locked s j))
    → free_in n s ≡ free_in n s' + (if ltb page n then 1 else 0)
free_in-locked zero page s s' free only = ground arith
free_in-locked (suc n) page s s' free only = elim (Bool-cases (page == n)) [
  | inl e ↦
      let e' : page ≡ n = ground arith in
      let here : locked s n ≡ false = subst (λ j. locked s j ≡ false) e' free in
      ground (arith, only n, here, free_in-locked n page s s' free only)
  | inr e ↦ ground (arith, only n, free_in-locked n page s s' free only)
]

free_in-full : (n : ℕ) (s : Physical) → ((j : ℕ) → j < n → locked s j ≡ true) → free_in n s ≡ 0
free_in-full zero s full = refl
free_in-full (suc n) s full = ground (arith, full n, free_in-full n s (λ j l. full j (omega arith)))

-- A request in a sound allocator with a free page, of which page 0 is locked, is granted a page that
-- is not at address 0, and leaves one free page less.
record Supplied (s : Physical) (r : Request × Physical) : Type 0 where
  nonzero : pointer r.0 == 0 ≡ false
  first_locked : locked r.1 0 ≡ true
  fewer : free_in s.total_pages s ≡ suc (free_in s.total_pages r.1)

Served-Supplied :
    (s : Physical) (r : Request × Physical)
    → Served s r
    → locked s 0 ≡ true
    → 0 < free_in s.total_pages s
    → Supplied s r
unfolding pointer
Served-Supplied s r (inr e) first some_free =
    absurd (omega (arith, some_free, free_in-full s.total_pages s e.full))
Served-Supplied s r (inl (page, g)) first some_free =
    let apart : page == 0 ≡ false = ground (arith, g.was_free, first) in
    let counted = free_in-locked s.total_pages page s r.1 g.was_free g.only in
    let below : ltb page s.total_pages ≡ true = ground (arith, g.in_memory) in
    record {
      nonzero = subst (λ q. pointer q == 0 ≡ false) (sym g.at) (ground arith);
      first_locked = ground (arith, g.only 0);
      fewer = ground (arith, counted, below);
    }

-- In a sound allocator of which page 0 is locked, so many requests in a row as pages are free are
-- each granted a page that is not at address 0.
pub free_in-grants :
    (k : ℕ) (s : Physical)
    → IsSound s
    → locked s 0 ≡ true
    → k ≤ free_in s.total_pages s
    → grants k s ≡ true
unfolding grants
free_in-grants zero s h first enough = refl
free_in-grants (suc k) s h first enough =
    let s' = (request_page s).1 in
    let given =
      Served-Supplied s (request_page s) (request_page-Served s h.valid h.mapped h.fits h.hint)
        first (omega (arith, enough)) in
    let total = total-request_page s h in
    rw (grants, given.nonzero)
      (free_in-grants k s' (request_page-IsSound s h) given.first_locked
        (subst (λ n. k ≤ free_in n s') (sym total) (omega (arith, enough, given.fewer))))
