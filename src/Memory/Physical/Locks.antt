-- ===== src/Memory/Physical/Locks.antt =====
-- Which pages are locked after `lock_page`, `free_page_impl` and their loops.
use lensor_os.Prelude.{
  ℕ, zero, suc, ◌+◌, ◌*◌, ◌/◌, ◌≡◌, ◌∙◌, refl, ◌≤◌, ◌<◌, Bool, true, false, ◌&&◌, arith, leb, ltb,
  if◌then◌else◌, ◌==◌,
}
use lensor_os.Prelude.Words.{u64_mod, add64}
use lensor_os.Memory.Bitmap
use lensor_os.Memory.Bitmap.Laws.{get-put, put-IsValid, size-put, put-ok}
use lensor_os.Memory.Physical.{
  Physical, page_size, lock_page, lock_rounds, lock_pages, free_page_impl, free_rounds, free_pages,
}

abbrev pub locked : Physical → ℕ → Bool
locked s page = Bitmap.get s.page_map page

abbrev pub IsValid : Physical → Type 0
IsValid s = Bitmap.IsValid s.page_map

-- The page lies in the map.
abbrev pub InMap : Physical → ℕ → Type 0
InMap s page = page < 8 * s.page_map.size

-- `page` is one of the `n` pages from `first` on.
abbrev pub in_run : ℕ → ℕ → ℕ → Bool
in_run first n page = leb first page && ltb page (first + n)

module _ (s : Physical) (addr : ℕ) where
  pub size-lock_page : (lock_page addr s).page_map.size ≡ s.page_map.size
  unfolding lock_page
  size-lock_page = ground (arith, size-put s.page_map (addr / page_size) true)

  pub size-free_page : (free_page_impl addr s).page_map.size ≡ s.page_map.size
  unfolding free_page_impl
  size-free_page = ground (arith, size-put s.page_map (addr / page_size) false)

-- A page that is locked is left alone.
pub lock_page-locked :
    (s : Physical) (addr : ℕ) → locked s (addr / page_size) ≡ true → lock_page addr s ≡ s
unfolding lock_page
lock_page-locked s addr h = rw h

module _ (s : Physical) (v : IsValid s) (addr : ℕ) where
  pub lock_page-IsValid : IsValid (lock_page addr s)
  unfolding lock_page
  lock_page-IsValid = ground (arith, put-IsValid v (addr / page_size) true)

  pub free_page-IsValid : IsValid (free_page_impl addr s)
  unfolding free_page_impl
  free_page-IsValid = ground (arith, put-IsValid v (addr / page_size) false)

  pub locked-lock_page :
      (j : ℕ)
      → InMap s (addr / page_size)
      → locked (lock_page addr s) j ≡ (if addr / page_size == j then true else locked s j)
  unfolding lock_page
  locked-lock_page j h =
      ground (arith, get-put v (addr / page_size) true j, put-ok s.page_map (addr / page_size) true)

  pub locked-free_page :
      (j : ℕ)
      → InMap s (addr / page_size)
      → locked (free_page_impl addr s) j ≡ (if addr / page_size == j then false else locked s j)
  unfolding free_page_impl
  locked-free_page j h =
      ground
        (arith, get-put v (addr / page_size) false j, put-ok s.page_map (addr / page_size) false)

  -- Locking a page that is locked already changes nothing, the counters included.
  pub lock_page_twice :
      InMap s (addr / page_size) → lock_page addr (lock_page addr s) ≡ lock_page addr s
  lock_page_twice h =
      lock_page-locked (lock_page addr s) addr
        (ground (arith, locked-lock_page (addr / page_size) h))

-- The pages of the loop, in page numbers: no address of it wraps.
page_of_round :
    (first i : ℕ)
    → (first + i) * page_size < u64_mod
    → add64 (first * page_size) (i * page_size) / page_size ≡ first + i
page_of_round first i h = omega arith

pub size-lock_rounds :
    (n i addr : ℕ) (s : Physical) → (lock_rounds n i addr s).page_map.size ≡ s.page_map.size
unfolding lock_rounds
size-lock_rounds zero i addr s = refl
size-lock_rounds (suc n) i addr s =
    size-lock_rounds n (i + 1) addr (lock_page (add64 addr (i * page_size)) s)
    ∙ size-lock_page s (add64 addr (i * page_size))

pub lock_rounds-IsValid :
    (n i addr : ℕ) (s : Physical) → IsValid s → IsValid (lock_rounds n i addr s)
unfolding lock_rounds
lock_rounds-IsValid zero i addr s v = v
lock_rounds-IsValid (suc n) i addr s v =
    lock_rounds-IsValid n (i + 1) addr _ (lock_page-IsValid s v (add64 addr (i * page_size)))

locked-lock_rounds :
    (n i first j : ℕ) (s : Physical)
    → IsValid s
    → first + i + n ≤ 8 * s.page_map.size
    → (first + i + n) * page_size ≤ u64_mod
    → locked (lock_rounds n i (first * page_size) s) j
      ≡ (if in_run (first + i) n j then true else locked s j)
unfolding lock_rounds
locked-lock_rounds zero i first j s v h w = ground arith
locked-lock_rounds (suc n) i first j s v h w =
    let addr = add64 (first * page_size) (i * page_size) in
    ground (
      arith,
      page_of_round first i,
      size-lock_page s addr,
      locked-lock_page s v addr j,
      locked-lock_rounds n (i + 1) first j (lock_page addr s) (lock_page-IsValid s v addr),
    )

pub size-free_rounds :
    (n i addr : ℕ) (s : Physical) → (free_rounds n i addr s).page_map.size ≡ s.page_map.size
unfolding free_rounds
size-free_rounds zero i addr s = refl
size-free_rounds (suc n) i addr s =
    size-free_rounds n (i + 1) addr (free_page_impl (add64 addr (i * page_size)) s)
    ∙ size-free_page s (add64 addr (i * page_size))

pub free_rounds-IsValid :
    (n i addr : ℕ) (s : Physical) → IsValid s → IsValid (free_rounds n i addr s)
unfolding free_rounds
free_rounds-IsValid zero i addr s v = v
free_rounds-IsValid (suc n) i addr s v =
    free_rounds-IsValid n (i + 1) addr _ (free_page-IsValid s v (add64 addr (i * page_size)))

locked-free_rounds :
    (n i first j : ℕ) (s : Physical)
    → IsValid s
    → first + i + n ≤ 8 * s.page_map.size
    → (first + i + n) * page_size ≤ u64_mod
    → locked (free_rounds n i (first * page_size) s) j
      ≡ (if in_run (first + i) n j then false else locked s j)
unfolding free_rounds
locked-free_rounds zero i first j s v h w = ground arith
locked-free_rounds (suc n) i first j s v h w =
    let addr = add64 (first * page_size) (i * page_size) in
    ground (
      arith,
      page_of_round first i,
      size-free_page s addr,
      locked-free_page s v addr j,
      locked-free_rounds n (i + 1) first j (free_page_impl addr s) (free_page-IsValid s v addr),
    )

module _ (s : Physical) (v : IsValid s) (first n : ℕ) (inside : first + n ≤ 8 * s.page_map.size)
    (in_memory : (first + n) * page_size ≤ u64_mod) where
  -- `lock_pages` locks the pages of its run and leaves every other page as it was.
  pub locked-lock_pages :
      (j : ℕ)
      → locked (lock_pages (first * page_size) n s) j
        ≡ (if in_run first n j then true else locked s j)
  unfolding lock_pages
  locked-lock_pages j = ground (arith, locked-lock_rounds n 0 first j s v)

  -- `free_pages` frees the pages of its run and leaves every other page as it was.
  pub locked-free_pages :
      (j : ℕ)
      → locked (free_pages (first * page_size) n s) j
        ≡ (if in_run first n j then false else locked s j)
  unfolding free_pages
  locked-free_pages j = ground (arith, locked-free_rounds n 0 first j s v)

pub lock_pages-IsValid : (addr n : ℕ) (s : Physical) → IsValid s → IsValid (lock_pages addr n s)
unfolding lock_pages
lock_pages-IsValid addr n s v = lock_rounds-IsValid n 0 addr s v

pub free_pages-IsValid : (addr n : ℕ) (s : Physical) → IsValid s → IsValid (free_pages addr n s)
unfolding free_pages
free_pages-IsValid addr n s v = free_rounds-IsValid n 0 addr s v

pub size-lock_pages :
    (addr n : ℕ) (s : Physical) → (lock_pages addr n s).page_map.size ≡ s.page_map.size
unfolding lock_pages
size-lock_pages addr n s = size-lock_rounds n 0 addr s

pub size-free_pages :
    (addr n : ℕ) (s : Physical) → (free_pages addr n s).page_map.size ≡ s.page_map.size
unfolding free_pages
size-free_pages addr n s = size-free_rounds n 0 addr s

-- Locking a run inside the map locks its pages and no other; freeing it right after leaves them free
-- and the others as they were.
pub locked-free-lock :
    (s : Physical) (v : IsValid s) (first n : ℕ)
    → first + n ≤ 8 * s.page_map.size
    → (first + n) * page_size ≤ u64_mod
    → (j : ℕ)
    → let held = lock_pages (first * page_size) n s in
      (locked held j ≡ (if in_run first n j then true else locked s j))
      × (locked (free_pages (first * page_size) n held) j
          ≡ (if in_run first n j then false else locked s j))
locked-free-lock s v first n h w j =
    let held = lock_pages (first * page_size) n s in
    let lock = locked-lock_pages s v first n h w j in
    let freed =
      locked-free_pages held (lock_pages-IsValid (first * page_size) n s v) first n
        (omega (arith, size-lock_pages (first * page_size) n s)) w j in
    (lock, rw (freed, lock) (ground arith))
