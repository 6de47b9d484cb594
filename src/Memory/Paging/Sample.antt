-- ===== src/Memory/Paging/Sample.antt =====
-- An empty page map in a memory of sixteen pages, of which two are taken.
use lensor_os.Prelude.{
  ℕ, zero, suc, ◌+◌, ◌≡◌, ◌≤◌, ◌<◌, refl, true, false, none, some, [], ◌∷◌, arith, ◌==◌,
  if◌then◌else◌, Bool-cases, inl, inr, Bool, ltb, ◌||◌, not,
}
use lensor_os.Prelude.Words.{passes_up_to, passes_up_to_lem}
use lensor_os.Memory.Bitmap
use lensor_os.Memory.Physical.{Physical}
use lensor_os.Memory.Physical.Locks.{locked}
use lensor_os.Memory.Physical.Invariant
use lensor_os.Memory.Paging.{PageTables, flag}
use lensor_os.Memory.Paging.Tree.{Paths, IsTree}

abbrev pub memory : Physical
memory = record {
  page_map = record { size = 2; buffer = 192 ∷ 0 ∷ [] };
  total_pages = 16;
  total_free_pages = 14;
  total_used_pages = 2;
  max_free_pages_in_a_row = 14;
  first_free_page = 2;
}

abbrev pub tables : PageTables
tables = record { physical = memory; entries = λ _ _. 0 }

abbrev pub only_root : Paths
only_root t = if t == 4096 then some [] else none

locked_low : (j : ℕ) → j < 2 → locked memory j ≡ true
unfolding Bitmap.get Bitmap.test_bit Bitmap.bit_indexer
locked_low zero h = refl
locked_low (suc zero) h = refl
locked_low (suc (suc j)) h = absurd (omega arith)

pub memory-IsSound : Invariant.IsSound memory
memory-IsSound = record {
  valid = record { sized = refl; bytes = (omega arith, (omega arith, tt)) };
  mapped = omega arith;
  fits = omega arith;
  hint = locked_low;
}

pub tables-IsTree : IsTree 4096 only_root tables
unfolding flag
tables-IsTree = record {
  sound = memory-IsSound;
  narrow = omega arith;
  rooted = refl;
  child = λ t i p e l o. absurd (ground (arith, o));
  held = λ t p e. elim (Bool-cases (t == 4096)) [
    | inl y ↦ let k : t ≡ 4096 = ground arith in rw k (refl, locked_low 1 (omega arith))
    | inr n ↦ absurd (ground (arith, e))
  ];
}

high_test : ℕ → Bool
high_test j = ltb j 2 || not (locked memory j)

high_row : passes_up_to high_test 16 ≡ true
unfolding passes_up_to high_test Bitmap.get Bitmap.test_bit Bitmap.bit_indexer
high_row = refl

pub free_high : (j : ℕ) → 2 ≤ j → j < 2 + 6 → locked memory j ≡ false
unfolding high_test
free_high j l u =
    let row = passes_up_to_lem high_test 16 j (omega arith) high_row in ground (arith, row)
