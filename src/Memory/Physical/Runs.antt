-- ===== src/Memory/Physical/Runs.antt =====
-- `request_pages`: what a granted run is, that the search ends, and what it means that it fails.
use lensor_os.Prelude.{
  ℕ, zero, suc, ◌+◌, ◌-◌, ◌*◌, ◌%◌, ◌≡◌, ◌≢◌, ◌∙◌, refl, sym, subst, false≢true, ◌≤◌, ◌<◌, inl, inr,
  true, false, arith, leb, ltb, if◌then◌else◌, ◌==◌, Bool-cases,
}
use lensor_os.Prelude.Words.{u64_mod}
use lensor_os.Memory.Bitmap
use lensor_os.Memory.Bitmap.{Bitmap}
use lensor_os.Memory.Physical.{
  Physical, Request, address, null, out_of_fuel, page_size, lock_pages, Run, long_enough, locked_at,
  end_of_map, resume, run_rounds, search_rounds, request_page, request_rounds, request_pages,
}
use lensor_os.Memory.Physical.Locks.{locked, IsValid, in_run, locked-lock_pages}

-- The pages from `first` up to `last`, which is left out, are free.
abbrev pub FreeBetween : Bitmap → ℕ → ℕ → Type 0
FreeBetween m first last = (j : ℕ) → first ≤ j → j < last → Bitmap.get m j ≡ false

-- What the inner loop has found when it ends, at `index` with `run` of `wanted` pages counted.
abbrev RunMeans : Bitmap → ℕ → ℕ → ℕ → Run → Type 0
RunMeans m wanted index run long_enough =
    FreeBetween m index (index + (wanted - run)) × (index + (wanted - run) < m.size)
RunMeans m wanted index run (locked_at k) =
    (index ≤ k) × (k < index + (wanted - run)) × (k < m.size) × (Bitmap.get m k ≡ true)
RunMeans m wanted index run end_of_map = m.size ≤ index + (wanted - run)

free_cons :
    (m : Bitmap) (first last : ℕ)
    → Bitmap.get m first ≡ false
    → FreeBetween m (first + 1) last
    → FreeBetween m first last
free_cons m first last f rest j l u = elim (Bool-cases (j == first)) [
  | inl e ↦ let e' : j ≡ first = ground arith in rw e' f
  | inr e ↦ rest j (ground arith) u
]

RunMeans-step :
    (m : Bitmap) (wanted index run : ℕ) (r : Run)
    → run + 1 < wanted
    → Bitmap.get m index ≡ false
    → RunMeans m wanted (index + 1) (run + 1) r
    → RunMeans m wanted index run r
RunMeans-step m wanted index run long_enough h f (rest, below) =
    let e : index + 1 + (wanted - (run + 1)) ≡ index + (wanted - run) = omega arith in
    (free_cons m index _ f (rw e at rest), omega arith)
RunMeans-step m wanted index run (locked_at k) h f (l, u, b, t) = (omega arith, omega arith, b, t)
RunMeans-step m wanted index run end_of_map h f e = omega arith

run_rounds-RunMeans :
    (n : ℕ) (m : Bitmap) (wanted index run : ℕ)
    → run < wanted
    → index + n ≡ m.size
    → 0 < n
    → RunMeans m wanted index run (run_rounds n m wanted index run)
unfolding run_rounds
run_rounds-RunMeans zero m wanted index run h e p = absurd (omega arith)
run_rounds-RunMeans (suc n) m wanted index run h e p = elim (Bool-cases (Bitmap.get m index)) [
  | inl used ↦ rw used (omega arith, omega arith, omega arith, used)
  | inr free ↦ elim (Bool-cases (leb m.size (index + 1))) [
    | inl last ↦ rw (free, last) (ground arith)
    | inr more ↦ elim (Bool-cases (leb wanted (run + 1))) [
      | inl enough ↦
          rw (free, more, enough)
            (λ j l u. let e' : j ≡ index = ground arith in rw e' free, ground arith)
      | inr short ↦
          rw (free, more, short)
            (RunMeans-step m wanted index run _ (ground arith) free (
              run_rounds-RunMeans n m wanted (index + 1) (run + 1) (ground arith) (omega arith)
                (ground arith)))
    ]
  ]
]

-- No run of `wanted` free pages starts at `i` or above and ends before the last page of the search.
abbrev pub NoRun : Bitmap → ℕ → ℕ → Type 0
NoRun m wanted i = (p : ℕ) → i ≤ p → p + wanted < m.size → ¬ FreeBetween m p (p + wanted)

-- What a search from `i` on has found, and the state that it leaves.
abbrev pub SearchMeans : Physical → ℕ → ℕ → Request × Physical → Type 0
SearchMeans s wanted i (address a, s') =
    (p : ℕ) × (a ≡ (p * page_size) % u64_mod)
    × (i ≤ p)
    × (p + wanted < s.page_map.size)
    × FreeBetween s.page_map p (p + wanted)
    × (s' ≡ lock_pages a wanted s)
SearchMeans s wanted i (null, s') = (s' ≡ s) × NoRun s.page_map wanted i
SearchMeans s wanted i (out_of_fuel, s') = ⊥

-- No run can start at or below a locked page that lies within `wanted` pages of `i`.
NoRun-skip :
    (m : Bitmap) (wanted i k : ℕ)
    → k < i + wanted
    → Bitmap.get m k ≡ true
    → NoRun m wanted (k + 1)
    → NoRun m wanted i
NoRun-skip m wanted i k u t none_above p l w free = elim (Bool-cases (leb p k)) [
  | inl e ↦ cc (free k (ground arith) (ground arith))
  | inr e ↦ none_above p (ground arith) w free
]

SearchMeans-skip :
    (s : Physical) (wanted i k : ℕ) (r : Request × Physical)
    → i ≤ k
    → k < i + wanted
    → locked s k ≡ true
    → SearchMeans s wanted (k + 1) r
    → SearchMeans s wanted i r
SearchMeans-skip s wanted i k (address a, s') l u t (p, e, b, c, d, f) =
    (p, e, omega arith, c, d, f)
SearchMeans-skip s wanted i k (null, s') l u t (e, f) = (e, NoRun-skip s.page_map wanted i k u t f)
SearchMeans-skip s wanted i k (out_of_fuel, s') l u t h = h

resume-SearchMeans :
    (s : Physical) (wanted i : ℕ) (next : ℕ → Request × Physical) (r : Run)
    → RunMeans s.page_map wanted i 0 r
    → ((k : ℕ) → i ≤ k → k < s.page_map.size → SearchMeans s wanted (k + 1) (next (k + 1)))
    → SearchMeans s wanted i (resume s wanted i next r)
unfolding resume
resume-SearchMeans s wanted i next long_enough (free, below) keep =
    (i, refl, omega arith, omega arith, (λ j l u. free j l (omega arith)), refl)
resume-SearchMeans s wanted i next (locked_at k) (l, u, b, t) keep =
    SearchMeans-skip s wanted i k (next (k + 1)) l (omega arith) t (keep k l b)
resume-SearchMeans s wanted i next end_of_map e keep = (refl, λ p l w free. omega arith)

pub search_rounds-SearchMeans :
    (n wanted i : ℕ) (s : Physical)
    → 0 < wanted
    → 0 < n
    → s.page_map.size < i + n
    → SearchMeans s wanted i (search_rounds n wanted i s)
unfolding search_rounds
search_rounds-SearchMeans zero wanted i s h p e = absurd (omega arith)
search_rounds-SearchMeans (suc n) wanted i s h p e = elim (Bool-cases (ltb i s.page_map.size)) [
  | inr out ↦ rw out (refl, λ q l w free. ground arith)
  | inl within ↦ elim (Bool-cases (locked s i)) [
    | inl used ↦
        rw (within, used)
          (SearchMeans-skip s wanted i i _ (omega arith) (omega arith) used
            (search_rounds-SearchMeans n wanted (i + 1) s h (ground arith) (omega arith)))
    | inr free ↦
        rw (within, free)
          (resume-SearchMeans s wanted i _ _
            (run_rounds-RunMeans (s.page_map.size - i) s.page_map wanted i 0 h (ground arith)
              (ground arith))
            (λ k l b. search_rounds-SearchMeans n wanted (k + 1) s h (omega arith) (omega arith)))
  ]
]

request_rounds-ne-out_of_fuel : (n : ℕ) (s : Physical) → (request_rounds n s).0 ≢ out_of_fuel
unfolding request_rounds
request_rounds-ne-out_of_fuel zero s = ground arith
request_rounds-ne-out_of_fuel (suc n) s =
    ground (
      arith,
      request_rounds-ne-out_of_fuel n (record s { first_free_page = s.first_free_page + 1 }),
    )

all_used :
    (s : Physical) (wanted i : ℕ) (r : Request × Physical)
    → 0 < wanted
    → ((j : ℕ) → j < s.page_map.size → locked s j ≡ true)
    → SearchMeans s wanted i r
    → r ≡ (null, s)
all_used s wanted i (address a, s') h used (p, e, l, below, free, d) =
    absurd (false≢true (sym (free p (omega arith) (omega arith)) ∙ used p (omega arith)))
all_used s wanted i (null, s') h used (e, f) = cc
all_used s wanted i (out_of_fuel, s') h used f = absurd f

not_out_of_fuel :
    (s : Physical) (wanted i : ℕ) (r : Request × Physical)
    → SearchMeans s wanted i r
    → r.0 ≢ out_of_fuel
not_out_of_fuel s wanted i (address a, s') h = ground arith
not_out_of_fuel s wanted i (null, s') h = ground arith
not_out_of_fuel s wanted i (out_of_fuel, s') h = absurd h

-- A request for two pages or more that passes the two checks is a search from the hint on.
module _ (n : ℕ) (s : Physical) (several : 1 < n) where
  request_pages-SearchMeans :
      n ≤ s.total_free_pages
      → n ≤ s.max_free_pages_in_a_row
      → SearchMeans s n s.first_free_page (request_pages n s)
  unfolding request_pages
  request_pages-SearchMeans f m =
      let search =
        search_rounds-SearchMeans (s.page_map.size + 1) n s.first_free_page s (omega arith)
          (omega arith) (omega arith) in
      let zero_test : (n == 0) ≡ false = ground arith in
      let one_test : (n == 1) ≡ false = ground arith in
      let free_test : ltb s.total_free_pages n ≡ false = ground arith in
      let row_test : ltb s.max_free_pages_in_a_row n ≡ false = ground arith in
      rw (zero_test, one_test, free_test, row_test) search

  -- A granted run was free, and ends before the last page of the search: afterwards its pages are
  -- locked and every other page is as it was.
  pub request_pages_grant :
      IsValid s
      → s.page_map.size * page_size ≤ u64_mod
      → n ≤ s.total_free_pages
      → n ≤ s.max_free_pages_in_a_row
      → (a : ℕ) (s' : Physical) → request_pages n s ≡ (address a, s')
      → (p : ℕ) × (a ≡ p * page_size)
        × (s.first_free_page ≤ p)
        × (p + n < s.page_map.size)
        × FreeBetween s.page_map p (p + n)
        × ((j : ℕ) → locked s' j ≡ (if in_run p n j then true else locked s j))
  request_pages_grant v fits f m a s' e =
      let (p, at, after_hint, below, free, end) =
        subst (SearchMeans s n s.first_free_page) e (request_pages-SearchMeans f m) in
      let at' : a ≡ p * page_size = omega arith in
      (
        p,
        at',
        after_hint,
        below,
        free,
        λ j. rw (end, at') (locked-lock_pages s v p n (omega arith) (omega arith) j),
      )

  -- If it returns `nullptr`, nothing has changed, and no run of `n` free pages starts at the hint
  -- or above it and ends before the last page of the search.
  pub request_pages_null :
      n ≤ s.total_free_pages
      → n ≤ s.max_free_pages_in_a_row
      → (s' : Physical) → request_pages n s ≡ (null, s')
      → (s' ≡ s) × NoRun s.page_map n s.first_free_page
  request_pages_null f m s' e =
      subst (SearchMeans s n s.first_free_page) e (request_pages-SearchMeans f m)

  -- The search compares page numbers with the number of bytes of the map: if the pages below that
  -- number are locked, the request fails, whatever pages above it are free.
  pub request_pages_bytes :
      ((j : ℕ) → j < s.page_map.size → locked s j ≡ true) → request_pages n s ≡ (null, s)
  unfolding request_pages
  request_pages_bytes used = ground (
    arith,
    all_used s n s.first_free_page _ (omega arith) used (
        search_rounds-SearchMeans (s.page_map.size + 1) n s.first_free_page s (omega arith)
          (omega arith) (omega arith)),
  )

-- The loop on fuel has enough of it: every request is answered.
pub request_pages_answers : (n : ℕ) (s : Physical) → (request_pages n s).0 ≢ out_of_fuel
unfolding request_pages request_page
request_pages_answers n s = ground (
  arith,
  request_rounds-ne-out_of_fuel (s.total_pages - s.first_free_page) s,
  not_out_of_fuel s n s.first_free_page (search_rounds (s.page_map.size + 1) n s.first_free_page s),
  search_rounds-SearchMeans (s.page_map.size + 1) n s.first_free_page s,
)
