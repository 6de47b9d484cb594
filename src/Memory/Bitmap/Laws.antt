-- ===== src/Memory/Bitmap/Laws.antt =====
-- What `get` reads after `put` and `init`, and that they keep the bitmap well formed.
use lensor_os.Prelude.{
  ℕ, ◌/◌, ◌%◌, ◌≡◌, ◌∙◌, ◌≤◌, ◌<◌, inl, inr, Bool, true, false, arith, leb, if◌then◌else◌, ◌==◌,
  Bool-cases, get_or, length-set, All-get_or, All-set, All-replicate, length-replicate,
  get_or-set_self, get_or-set_ne, get_or-replicate,
}
use lensor_os.Memory.Bitmap.{Bitmap, init, get, put, bit_indexer, test_bit, write_bit, IsValid}
use lensor_os.Memory.Bitmap.Byte.{test_bit-write_bit, write_bit-lt, bit_indexer-mod, test_bit-zero}

module _ (m : Bitmap) (i : ℕ) (b : Bool) where
  pub size-put : (put m i b).0.size ≡ m.size
  unfolding put
  size-put = ground arith

  -- `put` succeeds exactly within the buffer.
  pub put-ok : (put m i b).1 ≡ (if leb m.size (i / 8) then false else true)
  unfolding put
  put-ok = ground arith

  -- Beyond the buffer `put` changes nothing.
  pub put_outside : m.size ≤ i / 8 → put m i b ≡ (m, false)
  unfolding put
  put_outside h = ground arith

module _ {m : Bitmap} (v : IsValid m) (i : ℕ) (b : Bool) where
  byte-lt : get_or m.buffer (i / 8) 0 < 256
  byte-lt = All-get_or (λ b. b < 256) m.buffer (i / 8) 0 (omega arith) v.bytes

  -- `put` keeps the bitmap well formed.
  pub put-IsValid : IsValid (put m i b).0
  unfolding put
  put-IsValid = elim (Bool-cases (leb m.size (i / 8))) [
    | inl out ↦ rw out v
    | inr within ↦ rw within (record {
      sized = length-set m.buffer (i / 8) _ ∙ v.sized;
      bytes =
          All-set (λ b. b < 256) m.buffer (i / 8) _
            (rw (bit_indexer-mod i) (write_bit-lt _ (i % 8) b byte-lt (omega arith))) v.bytes;
    })
  ]

  -- The bits of byte `i / 8` after the write.
  same_byte :
      (j : ℕ)
      → i / 8 ≡ j / 8
      → test_bit (write_bit (get_or m.buffer (i / 8) 0) (bit_indexer i) b) (bit_indexer j)
        ≡ (if i == j then b else test_bit (get_or m.buffer (j / 8) 0) (bit_indexer j))
  same_byte j e =
      rw (bit_indexer-mod i, bit_indexer-mod j)
        (ground (arith, test_bit-write_bit (get_or m.buffer (i / 8) 0) (i % 8) (j % 8) b, byte-lt))

  -- After `put` within the buffer, `get` reads the new value there and the old ones elsewhere.
  pub get-put : (j : ℕ) → i / 8 < m.size → get (put m i b).0 j ≡ (if i == j then b else get m j)
  unfolding get put
  get-put j h = ground (
    arith,
    v,
    same_byte j,
    get_or-set_self m.buffer (i / 8) (write_bit (get_or m.buffer (i / 8) 0) (bit_indexer i) b) 0,
    get_or-set_ne m.buffer (i / 8) (j / 8) (write_bit (get_or m.buffer (i / 8) 0) (bit_indexer i) b)
        0,
  )

-- A fresh bitmap is well formed, and every bit of it is clear.
pub init-IsValid : (size : ℕ) → IsValid (init size)
unfolding init
init-IsValid size = record {
  sized = length-replicate size 0;
  bytes = All-replicate (λ b. b < 256) size 0 (omega arith);
}

pub get-init : (size i : ℕ) → get (init size) i ≡ false
unfolding init get
get-init size i = ground (arith, get_or-replicate {A = ℕ} size (i / 8) 0, test_bit-zero i)

-- Beyond the buffer every bit reads as clear.
pub get_outside : (m : Bitmap) (i : ℕ) → m.size ≤ i / 8 → get m i ≡ false
unfolding get
get_outside m i h = ground arith
