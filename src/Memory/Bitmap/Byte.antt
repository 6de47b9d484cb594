-- ===== src/Memory/Bitmap/Byte.antt =====
-- One byte of the bitmap: what `write_bit` does to what `test_bit` reads, checked for every byte.
use lensor_os.Prelude.{
  ℕ, ◌%◌, ◌^◌, ◌/◌, ◌≡◌, refl, ap, ◌<◌, Bool, true, false, not, ◌&&◌, arith, ltb, if◌then◌else◌,
  ◌==◌,
}
use lensor_os.Prelude.Words.{passes_up_to, passes_up_to_lem}
use lensor_os.Memory.Bitmap.{bit_indexer, test_bit, write_bit}

same : Bool → Bool → Bool
same true b = b
same false b = not b

same→eq : (a b : Bool) → same a b ≡ true → a ≡ b
unfolding same
same→eq a b h = ground arith

row : Bool → ℕ → ℕ → ℕ → Bool
row v b i j =
    same (test_bit (write_bit b (bit_indexer i) v) (bit_indexer j))
      (if i == j then v else test_bit b (bit_indexer j))

-- A test of a byte and of two places in it, for all of them.
abbrev all_masks : (ℕ → ℕ → ℕ → Bool) → Bool
all_masks test = passes_up_to (λ b. passes_up_to (λ i. passes_up_to (test b i) 8) 8) 256

all_masks_lem :
    (test : ℕ → ℕ → ℕ → Bool) (b i j : ℕ)
    → b < 256
    → i < 8
    → j < 8
    → all_masks test ≡ true
    → test b i j ≡ true
all_masks_lem test b i j hb hi hj h =
    let of_byte =
      passes_up_to_lem (λ b. passes_up_to (λ i. passes_up_to (test b i) 8) 8) 256 b hb h in
    let of_place = passes_up_to_lem (λ i. passes_up_to (test b i) 8) 8 i hi of_byte in
    passes_up_to_lem (test b i) 8 j hj of_place

table_true : all_masks (row true) ≡ true
unfolding passes_up_to row same test_bit write_bit bit_indexer
table_true = refl

table_false : all_masks (row false) ≡ true
unfolding passes_up_to row same test_bit write_bit bit_indexer
table_false = refl

-- Writing bit `i` of a byte changes what is read at bit `i` and at no other bit.
pub test_bit-write_bit :
    (b i j : ℕ) (v : Bool)
    → b < 256
    → i < 8
    → j < 8
    → test_bit (write_bit b (bit_indexer i) v) (bit_indexer j)
      ≡ (if i == j then v else test_bit b (bit_indexer j))
unfolding same row
test_bit-write_bit b i j true hb hi hj =
    same→eq _ _ (all_masks_lem (row true) b i j hb hi hj table_true)
test_bit-write_bit b i j false hb hi hj =
    same→eq _ _ (all_masks_lem (row false) b i j hb hi hj table_false)

range_row : ℕ → ℕ → Bool
range_row b i =
    ltb (write_bit b (bit_indexer i) true) 256 && ltb (write_bit b (bit_indexer i) false) 256

range_row_table : passes_up_to (λ b. passes_up_to (range_row b) 8) 256 ≡ true
unfolding passes_up_to range_row write_bit bit_indexer
range_row_table = refl

-- A written byte is a byte.
pub write_bit-lt : (b i : ℕ) (v : Bool) → b < 256 → i < 8 → write_bit b (bit_indexer i) v < 256
unfolding range_row
write_bit-lt b i v hb hi = pick v (
    passes_up_to_lem (range_row b) 8 i hi
      (passes_up_to_lem (λ b. passes_up_to (range_row b) 8) 256 b hb range_row_table))
  where
    pick : (v : Bool) → range_row b i ≡ true → write_bit b (bit_indexer i) v < 256
    pick true h = ground arith
    pick false h = ground arith

-- The mask depends on the index modulo 8.
pub bit_indexer-mod : (i : ℕ) → bit_indexer i ≡ bit_indexer (i % 8)
unfolding bit_indexer
bit_indexer-mod i = ap (λ (k : ℕ). 128 / 2 ^ k) (omega arith)

-- A fresh byte has no bit set.
zero_table : passes_up_to (λ i. not (test_bit 0 (bit_indexer i))) 8 ≡ true
unfolding passes_up_to test_bit bit_indexer
zero_table = refl

pub test_bit-zero : (i : ℕ) → test_bit 0 (bit_indexer i) ≡ false
test_bit-zero i = rw (bit_indexer-mod i) (
    ground (
      arith,
      passes_up_to_lem (λ i. not (test_bit 0 (bit_indexer i))) 8 (i % 8) (omega arith) zero_table,
    ))
