-- ===== src/Memory/Bitmap.antt =====
-- The page bitmap, kernel/src/bitmap.h and bitmap.cpp. The buffer is the region of `Size` bytes
-- at the address that `init` is given; a byte is a number below 256.
pub mod Byte
pub mod Laws
use Prim.Native.Nat.{bit_and, bit_or}
use lensor_os.Prelude.{
  ℕ, ◌-◌, ◌/◌, ◌%◌, ◌^◌, ◌≡◌, ◌<◌, Bool, true, false, List, ltb, leb, if◌then◌else◌, length, get_or,
  set, replicate, All,
}

pub record Bitmap : Type 0 where
  pub size : ℕ
  pub buffer : List ℕ

-- `Bitmap::init` and the constructor: `memset(Buffer, 0, Size)`.
unfoldable pub init : ℕ → Bitmap
init size = record { size = size; buffer = replicate size 0 }

-- `0b10000000 >> (index % 8)`
unfoldable pub bit_indexer : ℕ → ℕ
bit_indexer index = 128 / 2 ^ (index % 8)

-- `(byte & bitIndexer) > 0`
unfoldable pub test_bit : ℕ → ℕ → Bool
test_bit byte indexer = ltb 0 (bit_and byte indexer)

-- `byte &= ~bitIndexer; if (value) byte |= bitIndexer;`
unfoldable pub write_bit : ℕ → ℕ → Bool → ℕ
write_bit byte indexer value =
    let cleared = bit_and byte (255 - indexer) in if value then bit_or cleared indexer else cleared

unfoldable pub get : Bitmap → ℕ → Bool
get m index =
    let byte_index = index / 8 in
    if leb m.size byte_index
    then false
    else test_bit (get_or m.buffer byte_index 0) (bit_indexer index)

-- The new bitmap and the result.
unfoldable pub put : Bitmap → ℕ → Bool → Bitmap × Bool
put m index value =
    let byte_index = index / 8 in
    if leb m.size byte_index then (m, false) else (
      record m {
        buffer =
            set m.buffer byte_index
              (write_bit (get_or m.buffer byte_index 0) (bit_indexer index) value);
      },
      true,
    )

-- The buffer has `Size` bytes.
pub record IsValid (m : Bitmap) : Type 0 where
  pub sized : length m.buffer ≡ m.size
  pub bytes : All (λ b. b < 256) m.buffer
