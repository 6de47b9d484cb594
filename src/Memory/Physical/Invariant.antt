-- ===== src/Memory/Physical/Invariant.antt =====
-- Any sequence of calls keeps the allocator sound.
use lensor_os.Prelude.{
  ℕ, zero, suc, ◌+◌, ◌*◌, ◌-◌, ◌%◌, ◌≡◌, ◌∙◌, refl, sym, ap, subst, ◌≤◌, inl, inr, arith, List, [],
  ◌∷◌, ltb, ◌==◌, Bool-cases,
}
use lensor_os.Prelude.Words.{u64_mod, add64}
use lensor_os.Memory.Bitmap
use lensor_os.Memory.Physical.{
  Physical, Request, address, null, out_of_fuel, page_size, lock_page, lock_rounds, lock_pages,
  free_page, free_rounds, free_pages, request_rounds, request_page, request_pages,
}
use lensor_os.Memory.Physical.Locks.{
  locked, IsValid, lock_page-IsValid, free_page-IsValid, size-lock_page, size-free_page,
  lock_rounds-IsValid, free_rounds-IsValid, size-lock_rounds, size-free_rounds,
}
use lensor_os.Memory.Physical.Hint.{
  HintHolds, Served, total-lock_page, total-free_page, lock_page-HintHolds, free_page-HintHolds,
  lock_rounds-HintHolds, free_rounds-HintHolds,
}
use lensor_os.Memory.Physical.Single.{request_page-Served}
use lensor_os.Memory.Physical.Runs.{SearchMeans, search_rounds-SearchMeans}

pub record IsSound (s : Physical) : Type 0 where
  pub valid : IsValid s
  pub mapped : s.total_pages ≤ 8 * s.page_map.size
  pub fits : s.total_pages * page_size ≤ u64_mod
  pub hint : HintHolds s

pub total-lock_rounds :
    (n i addr : ℕ) (s : Physical) → (lock_rounds n i addr s).total_pages ≡ s.total_pages
unfolding lock_rounds
total-lock_rounds zero i addr s = refl
total-lock_rounds (suc n) i addr s =
    total-lock_rounds n (i + 1) addr _ ∙ total-lock_page s (add64 addr (i * page_size))

total-free_rounds :
    (n i addr : ℕ) (s : Physical) → (free_rounds n i addr s).total_pages ≡ s.total_pages
unfolding free_rounds
total-free_rounds zero i addr s = refl
total-free_rounds (suc n) i addr s =
    total-free_rounds n (i + 1) addr _ ∙ total-free_page s (add64 addr (i * page_size))

module _ (s : Physical) (h : IsSound s) where
  lock_page-IsSound : (addr : ℕ) → IsSound (lock_page addr s)
  lock_page-IsSound addr = record {
    valid = lock_page-IsValid s h.valid addr;
    mapped = omega (arith, total-lock_page s addr, size-lock_page s addr, h.mapped);
    fits = omega (arith, total-lock_page s addr, h.fits);
    hint = lock_page-HintHolds s h.valid h.hint addr;
  }

  lock_pages-IsSound : (addr n : ℕ) → IsSound (lock_pages addr n s)
  unfolding lock_pages
  lock_pages-IsSound addr n = record {
    valid = lock_rounds-IsValid n 0 addr s h.valid;
    mapped = omega (arith, total-lock_rounds n 0 addr s, size-lock_rounds n 0 addr s, h.mapped);
    fits = omega (arith, total-lock_rounds n 0 addr s, h.fits);
    hint = lock_rounds-HintHolds n 0 addr s h.valid h.hint;
  }

  free_page-IsSound : (addr : ℕ) → IsSound (free_page addr s)
  unfolding free_page
  free_page-IsSound addr = record {
    valid = free_page-IsValid s h.valid addr;
    mapped = omega (arith, total-free_page s addr, size-free_page s addr, h.mapped);
    fits = omega (arith, total-free_page s addr, h.fits);
    hint = free_page-HintHolds s h.valid h.hint addr;
  }

  free_pages-IsSound : (addr n : ℕ) → IsSound (free_pages addr n s)
  unfolding free_pages
  free_pages-IsSound addr n = record {
    valid = free_rounds-IsValid n 0 addr s h.valid;
    mapped = omega (arith, total-free_rounds n 0 addr s, size-free_rounds n 0 addr s, h.mapped);
    fits = omega (arith, total-free_rounds n 0 addr s, h.fits);
    hint = free_rounds-HintHolds n 0 addr s h.valid h.hint;
  }

-- The loop of `request_page` only moves the hint and locks a page.
request_rounds-keeps :
    (n : ℕ) (s : Physical)
    → IsValid s
    → let s' = (request_rounds n s).1 in
      IsValid s' × (s'.total_pages ≡ s.total_pages) × (s'.page_map.size ≡ s.page_map.size)
unfolding request_rounds
request_rounds-keeps zero s v = (v, refl, refl)
request_rounds-keeps (suc n) s v =
    let addr = (s.first_free_page * page_size) % u64_mod in
    elim (Bool-cases (locked s s.first_free_page)) [
      | inl used ↦
          rw used (request_rounds-keeps n (record s { first_free_page = s.first_free_page + 1 }) v)
      | inr free ↦
          rw free (lock_page-IsValid s v addr, total-lock_page s addr, size-lock_page s addr)
    ]

Served-HintHolds :
    (s : Physical) (r : Request) (s' : Physical)
    → s'.total_pages ≡ s.total_pages
    → HintHolds s
    → Served s (r, s')
    → HintHolds s'
Served-HintHolds s r s' e hint (inl (page, g)) j l = ground (arith, g.only j, g.lowest j, g.past)
Served-HintHolds s r s' e hint (inr x) j l = ap (λ m. Bitmap.get m j) x.same_map ∙ x.below j l

module _ (s : Physical) (h : IsSound s) where
  pub total-request_page : (request_page s).1.total_pages ≡ s.total_pages
  unfolding request_page
  total-request_page = (request_rounds-keeps (s.total_pages - s.first_free_page) s h.valid).1

  pub request_page-IsSound : IsSound (request_page s).1
  unfolding request_page
  request_page-IsSound =
      let served = request_page-Served s h.valid h.mapped h.fits h.hint in
      let (valid, total, size) =
        request_rounds-keeps (s.total_pages - s.first_free_page) s h.valid in
      record {
        valid = valid;
        mapped = omega (arith, total, size, h.mapped);
        fits = omega (arith, total, h.fits);
        hint = Served-HintHolds s _ _ total h.hint served;
      }

  search-IsSound : (n i : ℕ) (r : Request × Physical) → SearchMeans s n i r → IsSound r.1
  search-IsSound n i (address a, s') (p, e, l, below, free, end) =
      subst IsSound (sym end) (lock_pages-IsSound s h a n)
  search-IsSound n i (null, s') (e, f) = subst IsSound (sym e) h
  search-IsSound n i (out_of_fuel, s') f = absurd f

  pub request_pages-IsSound : (n : ℕ) → IsSound (request_pages n s).1
  unfolding request_pages
  request_pages-IsSound n = elim (Bool-cases (n == 0)) [
    | inl zero_pages ↦ rw zero_pages h
    | inr some_pages ↦ elim (Bool-cases (n == 1)) [
      | inl one ↦ rw (some_pages, one) request_page-IsSound
      | inr several ↦ elim (Bool-cases (ltb s.total_free_pages n)) [
        | inl few ↦ rw (some_pages, several, few) h
        | inr enough ↦ elim (Bool-cases (ltb s.max_free_pages_in_a_row n)) [
          | inl split ↦ rw (some_pages, several, enough, split) h
          | inr whole ↦
              rw (some_pages, several, enough, whole)
                (search-IsSound n s.first_free_page _ (
                  search_rounds-SearchMeans (s.page_map.size + 1) n s.first_free_page s
                    (ground arith) (omega arith) (omega arith)))
        ]
      ]
    ]
  ]

-- A call of the allocator's interface, and what it makes of the state.
pub data Call : Type 0 where
  lock_one : ℕ → Call
  lock_run : ℕ → ℕ → Call
  free_one : ℕ → Call
  free_run : ℕ → ℕ → Call
  request_one : Call
  request_run : ℕ → Call

unfoldable pub perform : Call → Physical → Physical
perform (lock_one addr) s = lock_page addr s
perform (lock_run addr n) s = lock_pages addr n s
perform (free_one addr) s = free_page addr s
perform (free_run addr n) s = free_pages addr n s
perform request_one s = (request_page s).1
perform (request_run n) s = (request_pages n s).1

unfoldable pub perform_all : List Call → Physical → Physical
perform_all [] s = s
perform_all (c ∷ cs) s = perform_all cs (perform c s)

perform-IsSound : (c : Call) (s : Physical) → IsSound s → IsSound (perform c s)
unfolding perform
perform-IsSound (lock_one addr) s h = lock_page-IsSound s h addr
perform-IsSound (lock_run addr n) s h = lock_pages-IsSound s h addr n
perform-IsSound (free_one addr) s h = free_page-IsSound s h addr
perform-IsSound (free_run addr n) s h = free_pages-IsSound s h addr n
perform-IsSound request_one s h = request_page-IsSound s h
perform-IsSound (request_run n) s h = request_pages-IsSound s h n

-- Whatever calls are made, on whatever addresses: the map stays well formed and covers the memory,
-- and every page below `FirstFreePage` stays locked.
pub perform_all-IsSound : (cs : List Call) (s : Physical) → IsSound s → IsSound (perform_all cs s)
unfolding perform_all
perform_all-IsSound [] s h = h
perform_all-IsSound (c ∷ cs) s h = perform_all-IsSound cs (perform c s) (perform-IsSound c s h)
