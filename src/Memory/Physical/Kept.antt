-- ===== src/Memory/Physical/Kept.antt =====
-- A request frees no page, and the number of pages stays.
use lensor_os.Prelude.{
  ℕ, zero, suc, ◌+◌, ◌*◌, ◌/◌, ◌⊎◌, ◌≡◌, ◌∙◌, sym, ap, subst, refl, ◌≤◌, true, arith, ltb, ◌==◌,
  Bool-cases, inl, inr,
}
use lensor_os.Prelude.Words.{add64}
use lensor_os.Memory.Bitmap
use lensor_os.Memory.Physical.{
  Physical, Request, address, null, out_of_fuel, page_size, request_page, request_pages, lock_page,
  lock_pages, lock_rounds,
}
use lensor_os.Memory.Physical.Locks.{locked, IsValid, InMap, locked-lock_page, lock_page-IsValid}
use lensor_os.Memory.Physical.Hint.{lock_page_outside}
use lensor_os.Memory.Physical.Single.{request_page-Served}
use lensor_os.Memory.Physical.Runs.{SearchMeans, search_rounds-SearchMeans}
use lensor_os.Memory.Physical.Invariant.{IsSound, total-request_page, total-lock_rounds}

pub record Keeps (s s' : Physical) : Type 0 where
  pub locks : (j : ℕ) → locked s j ≡ true → locked s' j ≡ true
  pub total : s'.total_pages ≡ s.total_pages

keeps_all : (s : Physical) → Keeps s s
keeps_all s = record { locks = λ j h. h; total = refl }

within_or_out : (s : Physical) (page : ℕ) → InMap s page ⊎ (s.page_map.size * 8 ≤ page)
within_or_out s page = ground arith

lock_page-locks :
    (s : Physical) (addr j : ℕ) → IsValid s → locked s j ≡ true → locked (lock_page addr s) j ≡ true
lock_page-locks s addr j v l = elim (within_or_out s (addr / page_size)) [
  | inl within ↦ ground (arith, locked-lock_page s v addr j within)
  | inr out ↦ rw (lock_page_outside s addr out) l
]

lock_rounds-locks :
    (n i addr : ℕ) (s : Physical)
    → IsValid s
    → (j : ℕ) → locked s j ≡ true
    → locked (lock_rounds n i addr s) j ≡ true
unfolding lock_rounds
lock_rounds-locks zero i addr s v j l = l
lock_rounds-locks (suc n) i addr s v j l =
    let a = add64 addr (i * page_size) in
    lock_rounds-locks n (i + 1) addr (lock_page a s) (lock_page-IsValid s v a) j
      (lock_page-locks s a j v l)

module _ (s : Physical) (h : IsSound s) where
  request_page-Keeps : Keeps s (request_page s).1
  request_page-Keeps = record {
    locks = λ j l. elim (request_page-Served s h.valid h.mapped h.fits h.hint) [
      | inl (page, g) ↦ ground (arith, g.only j)
      | inr x ↦ ap (λ m. Bitmap.get m j) x.same_map ∙ l
    ];
    total = total-request_page s h;
  }

  search-Keeps : (n i : ℕ) (r : Request × Physical) → SearchMeans s n i r → Keeps s r.1
  unfolding lock_pages
  search-Keeps n i (address a, s') (p, e, l, below, free, end) = subst (Keeps s) (sym end) (record {
    locks = λ j k. lock_rounds-locks n 0 a s h.valid j k;
    total = total-lock_rounds n 0 a s;
  })
  search-Keeps n i (null, s') (e, f) = subst (Keeps s) (sym e) (keeps_all s)
  search-Keeps n i (out_of_fuel, s') f = absurd f

  pub request_pages-Keeps : (n : ℕ) → Keeps s (request_pages n s).1
  unfolding request_pages
  request_pages-Keeps n = elim (Bool-cases (n == 0)) [
    | inl zero_pages ↦ rw zero_pages (keeps_all s)
    | inr some_pages ↦ elim (Bool-cases (n == 1)) [
      | inl one ↦ rw (some_pages, one) request_page-Keeps
      | inr several ↦ elim (Bool-cases (ltb s.total_free_pages n)) [
        | inl few ↦ rw (some_pages, several, few) (keeps_all s)
        | inr enough ↦ elim (Bool-cases (ltb s.max_free_pages_in_a_row n)) [
          | inl split ↦ rw (some_pages, several, enough, split) (keeps_all s)
          | inr whole ↦
              rw (some_pages, several, enough, whole)
                (search-Keeps n s.first_free_page _ (
                  search_rounds-SearchMeans (s.page_map.size + 1) n s.first_free_page s
                    (ground arith) (omega arith) (omega arith)))
        ]
      ]
    ]
  ]
