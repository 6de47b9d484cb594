-- ===== src/Memory/Physical/Examples.antt =====
-- Runs of the page allocator on a map of four bytes.
use lensor_os.Prelude.{
  ℕ, ◌+◌, ◌*◌, ◌≡◌, ◌≤◌, ◌<◌, refl, true, false, List, [], ◌∷◌, arith, if◌then◌else◌,
}
use lensor_os.Memory.Bitmap
use lensor_os.Memory.Physical.{
  Physical, page_size, lock_pages, free_pages, request_page, request_pages, search_rounds,
  run_rounds, resume,
}
use lensor_os.Memory.Physical.Locks.{locked, IsValid, in_run, locked-free-lock}
use lensor_os.Memory.Physical.Hint.{Served}
use lensor_os.Memory.Physical.Single.{request_page-Served}
use lensor_os.Memory.Physical.Invariant.{IsSound, Call, perform_all, perform_all-IsSound}
use lensor_os.Memory.Physical.Runs.{FreeBetween, request_pages_grant}

abbrev memory : List ℕ → ℕ → Physical
memory bytes used = record {
  page_map = record { size = 4; buffer = bytes };
  total_pages = 32;
  total_free_pages = 32;
  total_used_pages = used;
  max_free_pages_in_a_row = 32;
  first_free_page = 0;
}

abbrev free_memory : Physical
free_memory = memory (0 ∷ 0 ∷ 0 ∷ 0 ∷ []) 0

free_memory-IsValid : IsValid free_memory
free_memory-IsValid = record {
  sized = refl;
  bytes = (omega arith, (omega arith, (omega arith, (omega arith, tt))));
}

free_memory-IsSound : IsSound free_memory
free_memory-IsSound = record {
  valid = free_memory-IsValid;
  mapped = omega arith;
  fits = omega arith;
  hint = λ j h. absurd (omega arith);
}

request_page-Served_example : Served free_memory (request_page free_memory)
request_page-Served_example =
    request_page-Served free_memory free_memory-IsValid (omega arith) (omega arith)
      (λ j h. absurd (omega arith))

abbrev calls : List Call
calls = Call.request_one ∷ Call.request_run 3 ∷ Call.free_one 0 ∷ []

perform_all-IsSound_example : IsSound (perform_all calls free_memory)
perform_all-IsSound_example = perform_all-IsSound calls free_memory free_memory-IsSound

locked-free-lock_example :
    let held = lock_pages (3 * page_size) 5 free_memory in
    (locked held 4 ≡ (if in_run 3 5 4 then true else locked free_memory 4))
    × (locked (free_pages (3 * page_size) 5 held) 4
        ≡ (if in_run 3 5 4 then false else locked free_memory 4))
locked-free-lock_example =
    locked-free-lock free_memory free_memory-IsValid 3 5 (omega arith) (omega arith) 4

request_pages_grant_example :
    (p : ℕ) × (0 ≡ p * page_size)
    × (free_memory.first_free_page ≤ p)
    × (p + 2 < free_memory.page_map.size)
    × FreeBetween free_memory.page_map p (p + 2)
    × ((j : ℕ)
        → locked (request_pages 2 free_memory).1 j
          ≡ (if in_run p 2 j then true else locked free_memory j))
unfolding request_pages search_rounds run_rounds resume Bitmap.get Bitmap.test_bit
    Bitmap.bit_indexer
request_pages_grant_example =
    request_pages_grant 2 free_memory (omega arith) free_memory-IsValid (omega arith) (omega arith)
      (omega arith) 0 (request_pages 2 free_memory).1 refl

-- Four pages are locked, and the 28 that follow them are free.
