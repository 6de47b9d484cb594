-- ===== src/Memory/Physical.antt =====
-- The physical page allocator, kernel/src/memory/physical_memory_manager.cpp. Its globals are one
-- record; addresses and counters are `u64`s with their wrap-around written out.
pub mod Counters
pub mod Locks
pub mod Hint
pub mod Single
pub mod Invariant
pub mod Runs
pub mod Kept
mod Examples
use lensor_os.Prelude.{
  ℕ, zero, suc, ◌+◌, ◌-◌, ◌*◌, ◌/◌, ◌%◌, Bool, true, false, ltb, leb, if◌then◌else◌, ◌==◌,
}
use lensor_os.Prelude.Words.{u64_mod, add64, sub64}
use lensor_os.Memory.Bitmap
use lensor_os.Memory.Bitmap.{Bitmap}

pub record Physical : Type 0 where
  pub page_map : Bitmap
  pub total_pages : ℕ
  pub total_free_pages : ℕ
  pub total_used_pages : ℕ
  pub max_free_pages_in_a_row : ℕ
  pub first_free_page : ℕ

abbrev pub page_size : ℕ
page_size = 4096

-- What a request returns: an address, `nullptr`, or (for the loop on fuel) no answer.
pub data Request : Type 0 where
  address : ℕ → Request
  null : Request
  out_of_fuel : Request

-- `total_ram`, `free_ram` and `used_ram`.
unfoldable pub total_ram : Physical → ℕ
total_ram s = (s.total_pages * page_size) % u64_mod

unfoldable pub free_ram : Physical → ℕ
free_ram s = (s.total_free_pages * page_size) % u64_mod

unfoldable pub used_ram : Physical → ℕ
used_ram s = (s.total_used_pages * page_size) % u64_mod

-- `set` of a page, with the counters that `lock_page` moves if it succeeds.
unfoldable pub lock_page : ℕ → Physical → Physical
lock_page addr s =
    let index = addr / page_size in
    let set = Bitmap.put s.page_map index true in
    if Bitmap.get s.page_map index
    then s
    else if set.1
    then record s {
      page_map = set.0;
      total_free_pages = sub64 s.total_free_pages 1;
      total_used_pages = add64 s.total_used_pages 1;
    }
    else record s { page_map = set.0 }

-- The rounds `i`, `i + 1`, … of the loop in `lock_pages`; the first argument counts those left.
unfoldable pub lock_rounds : ℕ → ℕ → ℕ → Physical → Physical
lock_rounds zero i addr s = s
lock_rounds (suc n) i addr s = lock_rounds n (i + 1) addr (lock_page (add64 addr (i * page_size)) s)

unfoldable pub lock_pages : ℕ → ℕ → Physical → Physical
lock_pages addr number_of_pages s = lock_rounds number_of_pages 0 addr s

unfoldable pub free_page_impl : ℕ → Physical → Physical
free_page_impl addr s =
    let index = addr / page_size in
    let set = Bitmap.put s.page_map index false in
    if set.1
    then record s {
      page_map = set.0;
      first_free_page = if ltb index s.first_free_page then index else s.first_free_page;
      total_used_pages = sub64 s.total_used_pages 1;
      total_free_pages = add64 s.total_free_pages 1;
    }
    else record s { page_map = set.0 }

unfoldable pub free_page : ℕ → Physical → Physical
free_page addr s = free_page_impl addr s

unfoldable pub free_rounds : ℕ → ℕ → ℕ → Physical → Physical
free_rounds zero i addr s = s
free_rounds (suc n) i addr s =
    free_rounds n (i + 1) addr (free_page_impl (add64 addr (i * page_size)) s)

unfoldable pub free_pages : ℕ → ℕ → Physical → Physical
free_pages addr number_of_pages s = free_rounds number_of_pages 0 addr s

-- The loop of `request_page`, whose test `FirstFreePage < TotalPages` holds for as many rounds as
-- the first argument says. When it fails the code reports a panic and returns `nullptr`.
unfoldable pub request_rounds : ℕ → Physical → Request × Physical
request_rounds zero s = (null, s)
request_rounds (suc n) s =
    let page = s.first_free_page in
    let addr = (page * page_size) % u64_mod in
    let locked = lock_page addr s in
    let rest = request_rounds n (record s { first_free_page = page + 1 }) in
    if Bitmap.get s.page_map page
    then rest
    else (address addr, record locked { first_free_page = locked.first_free_page + 1 })

unfoldable pub request_page : Physical → Request × Physical
request_page s = request_rounds (s.total_pages - s.first_free_page) s

-- How the inner loop of `request_pages` ends: a run that is long enough, a locked page at an
-- index, or the end of the map.
pub data Run : Type 0 where
  long_enough : Run
  locked_at : ℕ → Run
  end_of_map : Run

-- The inner loop, at `index` with `run` pages counted. It leaves at the latest when `index` meets
-- the length, so that many rounds are given.
unfoldable pub run_rounds : ℕ → Bitmap → ℕ → ℕ → ℕ → Run
run_rounds zero m wanted index run = end_of_map
run_rounds (suc n) m wanted index run =
    let rest = run_rounds n m wanted (index + 1) (run + 1) in
    if Bitmap.get m index
    then locked_at index
    else if leb m.size (index + 1)
    then end_of_map
    else if leb wanted (run + 1)
    then long_enough
    else rest

-- How the outer loop goes on at a free page `i`, by the way the inner loop ended there: `i = index`,
-- and the loop's own `++i`, take it past the locked page.
unfoldable pub resume : Physical → ℕ → ℕ → (ℕ → Request × Physical) → Run → Request × Physical
resume s wanted i next long_enough =
    (address ((i * page_size) % u64_mod), lock_pages ((i * page_size) % u64_mod) wanted s)
resume s wanted i next (locked_at index) = next (index + 1)
resume s wanted i next end_of_map = (null, s)

-- The outer loop, on fuel. `PageMap.length()` is the field `size`.
unfoldable pub search_rounds : ℕ → ℕ → ℕ → Physical → Request × Physical
search_rounds zero wanted i s = (out_of_fuel, s)
search_rounds (suc n) wanted i s =
    let m = s.page_map in
    let skip = search_rounds n wanted (i + 1) s in
    let scan =
      resume s wanted i (λ k. search_rounds n wanted k s) (run_rounds (m.size - i) m wanted i 0) in
    if ltb i m.size then (if Bitmap.get m i then skip else scan) else (null, s)

-- The outer loop makes fewer rounds than the map has bytes.
unfoldable pub request_pages : ℕ → Physical → Request × Physical
request_pages number_of_pages s =
    if number_of_pages == 0
    then (null, s)
    else if number_of_pages == 1
    then request_page s
    else if ltb s.total_free_pages number_of_pages
    then (null, s)
    else if ltb s.max_free_pages_in_a_row number_of_pages
    then (null, s)
    else search_rounds (s.page_map.size + 1) number_of_pages s.first_free_page s
