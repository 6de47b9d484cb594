-- ===== src/Memory/Physical/Counters.antt =====
-- What `TotalUsedPages` and `TotalFreePages` count.
use lensor_os.Prelude.{
  ℕ, zero, suc, ◌+◌, ◌*◌, ◌/◌, ◌≡◌, refl, sym, inl, inr, ◌≤◌, ◌<◌, Bool, true, false, arith,
  if◌then◌else◌, ◌==◌, Bool-cases,
}
use lensor_os.Prelude.Words.{u64_mod, add64, sub64}
use lensor_os.Memory.Bitmap.Laws.{put-ok}
use lensor_os.Memory.Physical.{Physical, page_size, lock_page, free_page_impl}
use lensor_os.Memory.Physical.Locks.{
  locked, IsValid, InMap, locked-lock_page, locked-free_page, lock_page-locked, size-lock_page,
  size-free_page,
}

-- The sum of the two counters is a constant (modulo 2^64) of locking and freeing.
pub sum_of_counters : Physical → ℕ
sum_of_counters s = add64 s.total_used_pages s.total_free_pages

pub sum-lock_page :
    (s : Physical) (addr : ℕ) → sum_of_counters (lock_page addr s) ≡ sum_of_counters s
unfolding sum_of_counters lock_page
sum-lock_page s addr = ground arith

pub sum-free_page :
    (s : Physical) (addr : ℕ) → sum_of_counters (free_page_impl addr s) ≡ sum_of_counters s
unfolding sum_of_counters free_page_impl
sum-free_page s addr = ground arith

-- How many numbers below `n` pass a test.
unfoldable pub count_below : (ℕ → Bool) → ℕ → ℕ
count_below f zero = 0
count_below f (suc n) = (if f n then 1 else 0) + count_below f n

count_same :
    (f g : ℕ → Bool) (n : ℕ) → ((j : ℕ) → j < n → f j ≡ g j) → count_below f n ≡ count_below g n
unfolding count_below
count_same f g zero h = refl
count_same f g (suc n) h = ground (arith, h n, count_same f g n (λ j l. h j (omega arith)))

-- Turning one entry on adds one.
count_turned_on :
    (f g : ℕ → Bool) (i n : ℕ)
    → i < n
    → f i ≡ false
    → ((j : ℕ) → g j ≡ (if i == j then true else f j))
    → count_below g n ≡ suc (count_below f n)
unfolding count_below
count_turned_on f g i zero l off h = absurd (omega arith)
count_turned_on f g i (suc n) l off h = elim (Bool-cases (i == n)) [
  | inl e ↦ let same = count_same g f n (λ j lj. ground (arith, h j)) in ground (arith, h n, same)
  | inr e ↦ ground (arith, h n, count_turned_on f g i n (ground arith) off h)
]

count_turned_off :
    (f g : ℕ → Bool) (i n : ℕ)
    → i < n
    → f i ≡ true
    → ((j : ℕ) → g j ≡ (if i == j then false else f j))
    → suc (count_below g n) ≡ count_below f n
count_turned_off f g i n l on h =
    sym (count_turned_on g f i n l (ground (arith, h i)) (λ j. ground (arith, h j)))

count-le : (f : ℕ → Bool) (n : ℕ) → count_below f n ≤ n
unfolding count_below
count-le f zero = omega arith
count-le f (suc n) = ground (arith, count-le f n)

-- The number of locked pages of the map.
unfoldable pub locked_pages : Physical → ℕ
locked_pages s = count_below (locked s) (8 * s.page_map.size)

locked_pages-le : (s : Physical) → locked_pages s ≤ 8 * s.page_map.size
unfolding locked_pages
locked_pages-le s = count-le (locked s) (8 * s.page_map.size)

-- `TotalUsedPages` is the number of locked pages.
pub record IsCounted (s : Physical) : Type 0 where
  pub used : s.total_used_pages ≡ locked_pages s
  pub small : 8 * s.page_map.size < u64_mod

module _ (s : Physical) (addr : ℕ) (v : IsValid s) (h : InMap s (addr / page_size))
    (c : IsCounted s) where
  used-lock_page :
      locked s (addr / page_size) ≡ false
      → (lock_page addr s).total_used_pages ≡ add64 s.total_used_pages 1
  unfolding lock_page
  used-lock_page free = ground (arith, put-ok s.page_map (addr / page_size) true)

  used-free_page : (free_page_impl addr s).total_used_pages ≡ sub64 s.total_used_pages 1
  unfolding free_page_impl
  used-free_page = ground (arith, put-ok s.page_map (addr / page_size) false)

  locked_pages-lock_page :
      locked s (addr / page_size) ≡ false → locked_pages (lock_page addr s) ≡ suc (locked_pages s)
  unfolding locked_pages
  locked_pages-lock_page free = simp (size-lock_page s addr) (
      count_turned_on (locked s) (locked (lock_page addr s)) (addr / page_size)
        (8 * s.page_map.size) h free (λ j. locked-lock_page s v addr j h))

  locked_pages-free_page :
      locked s (addr / page_size) ≡ true
      → suc (locked_pages (free_page_impl addr s)) ≡ locked_pages s
  unfolding locked_pages
  locked_pages-free_page used = simp (size-free_page s addr) (
      count_turned_off (locked s) (locked (free_page_impl addr s)) (addr / page_size)
        (8 * s.page_map.size) h used (λ j. locked-free_page s v addr j h))

  -- A page that is free already stays free, and so does every other page as it was.
  locked_pages-free_page_free :
      locked s (addr / page_size) ≡ false → locked_pages (free_page_impl addr s) ≡ locked_pages s
  unfolding locked_pages
  locked_pages-free_page_free free = simp (size-free_page s addr) (
      count_same (locked (free_page_impl addr s)) (locked s) (8 * s.page_map.size)
        (λ j l. ground (arith, locked-free_page s v addr j h)))

  locked_pages-lt : locked_pages s < u64_mod
  locked_pages-lt = omega (arith, c.small, locked_pages-le s)

  -- Locking a page of the map, whether it is free or not, keeps `TotalUsedPages` the number of
  -- the locked pages.
  pub lock_page-IsCounted : IsCounted (lock_page addr s)
  lock_page-IsCounted = elim (Bool-cases (locked s (addr / page_size))) [
    | inl used ↦ rw (lock_page-locked s addr used) c
    | inr free ↦ record {
      used = omega (arith, used-lock_page free, locked_pages-lock_page free, c.used, full free);
      small = omega (arith, size-lock_page s addr, c.small);
    }
  ]
    where
      full : locked s (addr / page_size) ≡ false → suc (locked_pages s) < u64_mod
      full free = omega (
        arith,
        locked_pages-lock_page free,
        locked_pages-le (lock_page addr s),
        size-lock_page s addr,
        c.small,
      )

  -- Freeing a locked page keeps it too.
  pub free_page-IsCounted : locked s (addr / page_size) ≡ true → IsCounted (free_page_impl addr s)
  free_page-IsCounted used = record {
    used = omega (arith, used-free_page, locked_pages-free_page used, c.used, locked_pages-lt);
    small = omega (arith, size-free_page s addr, c.small);
  }

  -- Freeing a page that is free already does not: one page fewer counts as used than is locked.
  pub free_page_twice : locked s (addr / page_size) ≡ false → ¬ IsCounted (free_page_impl addr s)
  free_page_twice free c' =
      omega
        (arith, used-free_page, locked_pages-free_page_free free, c.used, c'.used, locked_pages-lt)
