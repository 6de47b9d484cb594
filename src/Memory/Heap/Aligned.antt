-- ===== src/Memory/Heap/Aligned.antt =====
-- `aligned_new` and `aligned_delete`, kernel/src/memory/heap.cpp: an address with the alignment
-- inside a block that is in use, from which the block is found again.
use lensor_os.Prelude.{
  ℕ, ◌+◌, ◌-◌, ◌*◌, ◌%◌, ◌≡◌, ◌∙◌, refl, sym, ap, ◌≤◌, ◌<◌, true, false, some, List, [], ◌∷◌, ◌++◌,
  arith, leb,
}
use native.Mathlib.Nat.{mod-add-mod, add-mod-mod, mod_self, mod-lt}
use lensor_os.Prelude.Words.{u64_mod, add64, sub64}
use lensor_os.Memory.Heap.{
  Heap, heap_virtual_base, header_size, heap_byte_align, looks_like_heap, malloc, align_after,
  aligned_new, aligned_delete, write,
}
use lensor_os.Memory.Heap.Chain.{Segment}
use lensor_os.Memory.Heap.Sound.{Sound, write_at}
use lensor_os.Memory.Heap.Malloc.{Granted}
use lensor_os.Memory.Heap.Live.{Blocks, live, Added, Apart, live-Apart}
use lensor_os.Memory.Heap.Free.{free-Added}
use lensor_os.Memory.Heap.Contract.{rounded, malloc-Added}

align_lem : (k x : ℕ) → 0 < k → (x + (k - x % k) % k) % k ≡ 0
align_lem k x p =
    let below = mod-lt x p in
    let whole : x % k + (k - x % k) ≡ k = omega (arith, below) in
    add-mod-mod x (k - x % k) k
    ∙ sym (mod-add-mod x k (k - x % k))
    ∙ ap (λ (y : ℕ). y % k) whole
    ∙ mod_self k

Apart-le : (from : ℕ) (xs : Blocks) (to : ℕ) → Apart from xs to → from ≤ to
Apart-le from [] to h = h
Apart-le from ((p, n) ∷ rest) to (h, r) = omega (arith, Apart-le (p + n) rest to r)

-- A block that is one of several apart lies within their bounds.
Apart-within :
    (from to p n : ℕ) (before behind : Blocks)
    → Apart from (before ++ ((p, n) ∷ behind)) to
    → (from + header_size ≤ p) × (p + n ≤ to)
Apart-within from to p n [] behind (l, r) = (l, Apart-le (p + n) behind to r)
Apart-within from to p n ((q, m) ∷ before) behind (l, r) =
    let (l', u) = Apart-within (q + m) to p n before behind r in (omega arith, u)

added-within :
    (p n : ℕ) (h : Heap) (segs : List Segment) (others : Blocks)
    → Sound h segs
    → Added p n others (live heap_virtual_base segs)
    → (heap_virtual_base + header_size ≤ p) × (p + n ≤ h.heap_end)
added-within p n h segs others v (before, behind, _, e) =
    let (l, u) =
      Apart-within heap_virtual_base _ p n before behind
        (rw e at (live-Apart heap_virtual_base segs)) in
    (l, omega (arith, u, v.ends))

-- An aligned address in a block that is in use, with room for the size behind it and a pointer to
-- the block before it.
pub record Aligned (size align : ℕ) (segs : List Segment) (q : ℕ) (h : Heap) : Type 0 where
  pub block : ℕ
  pub length : ℕ
  pub laid : List Segment
  pub sound : Sound h laid
  pub in_use : Added block length (live heap_virtual_base segs) (live heap_virtual_base laid)
  pub aligned : q % align ≡ 0
  pub room_before : block + 8 ≤ q
  pub room_behind : q + size ≤ block + length
  pub stored : h.words (q - 8) ≡ block

with_words :
    (w : ℕ → ℕ) (h : Heap) (segs : List Segment)
    → Sound h segs
    → Sound (record h { words = w }) segs
with_words w h segs v = record {
  start = v.start;
  populated = v.populated;
  small = v.small;
  chain = v.chain;
  last = v.last;
  ends = v.ends;
}

module _ (size align : ℕ) (h : Heap) (segs : List Segment) (wide : heap_byte_align < align)
    (fits : h.heap_end + 2 * (size + align + 8 + 4112) < u64_mod)
    (granted : Granted 2 (rounded (size + align + 8)) h) (v : Sound h segs) where
  abbrev pub stores : ℕ → Heap → ℕ × Heap
  stores p h' =
      let q = align_after align p in (q, record h' { words = write (sub64 q 8) p h'.words })

  aligned_new_step :
      (p : ℕ) (h' : Heap)
      → malloc (size + align + 8) h ≡ some (p, h')
      → aligned_new size align h ≡ some (stores p h')
  unfolding aligned_new
  aligned_new_step p h' e =
      let t : leb align heap_byte_align ≡ false = ground arith in
      let n : add64 (add64 size align) 8 ≡ size + align + 8 = omega arith in
      rw (aligned_new, t, n, e) refl

  align_after_lem :
      (p : ℕ)
      → p + (size + align + 8) < u64_mod
      → (align_after align p ≡ p + 8 + (align - (p + 8) % align) % align)
        × ((align - (p + 8) % align) % align < align)
  align_after_lem p u =
      let e : add64 p 8 ≡ p + 8 = omega arith in
      let below = mod-lt (align - (p + 8) % align) {m = align} (omega arith) in
      (rw e (omega (arith, below)), below)

  -- For an alignment above that of the heap and a sound heap, when there is room and pages are granted for two
  -- expansions, aligned_new gives an address that is a multiple of the alignment, inside a new block in use, with the size
  -- asked for behind it within the block and the address of the block stored right before it.
  pub aligned_new-Aligned :
      (q : ℕ) × (h' : Heap) × (aligned_new size align h ≡ some (q, h'))
      × Aligned size align segs q h'
  aligned_new-Aligned =
      let n = size + align + 8 in
      let (p, h', laid, e, v', added) = malloc-Added n h segs (omega arith) fits granted v in
      let (l, u) = added-within p (rounded n) h' laid _ v' added in
      let (at, below) = align_after_lem p (omega (arith, u, v'.small)) in
      let back : sub64 (align_after align p) 8 ≡ align_after align p - 8 =
        omega (arith, at, below, u, v'.small) in
      (
        (stores p h').0,
        (stores p h').1,
        aligned_new_step p h' e,
        record {
          block = p;
          length = rounded n;
          laid = laid;
          sound = with_words _ h' laid v';
          in_use = added;
          aligned = rw at (align_lem align (p + 8) (omega arith));
          room_before = omega (arith, at);
          room_behind = omega (arith, at, below);
          stored = rw back (write_at (align_after align p - 8) p h'.words);
        },
      )

-- For an alignment above that of the heap and a sound heap, when there is room and pages are granted for two
-- expansions, aligned_delete of what aligned_new gave leaves a sound heap with the blocks in use that there were before.
pub aligned_new-aligned_delete :
    (size align : ℕ) (h : Heap) (segs : List Segment)
    → heap_byte_align < align
    → h.heap_end + 2 * (size + align + 8 + 4112) < u64_mod
    → Granted 2 (rounded (size + align + 8)) h
    → Sound h segs
    → (q : ℕ) × (h' : Heap) × (segs' : List Segment) × (aligned_new size align h ≡ some (q, h'))
      × Sound (aligned_delete q align h') segs'
      × (live heap_virtual_base segs' ≡ live heap_virtual_base segs)
unfolding aligned_delete
aligned_new-aligned_delete size align h segs wide fits granted v =
    let (q, h', e, g) = aligned_new-Aligned size align h segs wide fits granted v in
    let (l, u) = added-within g.block g.length h' g.laid _ g.sound g.in_use in
    let t : leb align heap_byte_align ≡ false = ground arith in
    let heap : looks_like_heap q ≡ true =
      ground (arith, l, u, g.room_before, g.room_behind, g.sound.small) in
    let back : sub64 q 8 ≡ q - 8 =
      omega (arith, l, u, g.room_before, g.room_behind, g.sound.small) in
    let (segs', v', same) = free-Added g.block g.length h' g.laid _ g.sound g.in_use in
    (q, h', segs', e, rw (aligned_delete, t, heap, back, g.stored) v', same)
