-- ===== src/Containers/RingBuffer.antt =====
-- `std::ring_buffer`, std/include/extensions_ring_buffer. `_Size` is the length of the storage; a
-- read outside the storage has no value. Sizes stay far below 2^64, so no index wraps there.
pub mod Laws
mod Examples
use lensor_os.Prelude.{
  ℕ, ◌+◌, ◌-◌, Bool, Option, none, some, List, leb, ltb, if◌then◌else◌, ◌==◌, length, get_elem?,
  set,
}

module _ {ℓ} where
  pub record RingBuffer (A : Type ℓ) : Type ℓ where
    pub slots : List A
    pub head : ℕ
    pub tail : ℕ

module _ {ℓ} {A : Type ℓ} where
  -- `size`
  unfoldable pub size : RingBuffer A → ℕ
  size r = if leb r.head r.tail then r.tail - r.head else (length r.slots - r.head) + r.tail

  -- `__data[__tail++] = __value; if (__tail == __head) __head++; if (__tail >= _Size) __tail = 0;`
  unfoldable pub push_back : A → RingBuffer A → RingBuffer A
  push_back value r =
      let tail = r.tail + 1 in
      record {
        slots = set r.slots r.tail value;
        head = if tail == r.head then r.head + 1 else r.head;
        tail = if leb (length r.slots) tail then 0 else tail;
      }

  unfoldable pub pop_front : RingBuffer A → Option A × RingBuffer A
  pop_front r =
      let head = r.head + 1 in
      (get_elem? r.slots r.head, record r { head = if leb (length r.slots) head then 0 else head })

  unfoldable pub front : RingBuffer A → Option A
  front r = get_elem? r.slots r.head

  -- `operator++` and `operator--` of the iterators.
  unfoldable pub iterator_next : RingBuffer A → ℕ → ℕ
  iterator_next r current = if leb (length r.slots) (current + 1) then 0 else current + 1

  unfoldable pub iterator_prev : RingBuffer A → ℕ → ℕ
  iterator_prev r current = if current == 0 then length r.slots - 1 else current - 1
