-- ===== src/Process/Memories.antt =====
-- The memory regions of a process and the addresses that its system calls accept.
use lensor_os.Prelude.{
  ℕ, ◌+◌, ◌*◌, ◌≡◌, ◌≤◌, ◌<◌, ◌≢◌, ◌↔◌, inl, inr, false≢true, not, true, false, ◌&&◌, ◌||◌, List,
  [], ◌∷◌, arith, leb, ltb, ◌==◌, Bool-cases, All,
}
use lensor_os.Prelude.Words.{u64_mod, add64}
use lensor_os.Process.{
  Process, Region, region, page_size, in_a_region, valid_address, add_memory_region,
  remove_memory_region, remove_first,
}

-- The pages of a region cover its bytes, and one page fewer would not.
pub pages-region :
    (vaddr paddr bytes flag : ℕ)
    → let r = region vaddr paddr bytes flag in
      (bytes ≤ r.pages * page_size) × (r.pages * page_size < bytes + page_size)
unfolding region
pages-region vaddr paddr bytes flag = ground arith

-- An address lies in a region of the list.
abbrev Within : ℕ → Region → Type 0
Within a r = (r.vaddr ≤ a) × (a < r.vaddr + r.size)

pub data InSome (a : ℕ) : List Region → Type 0 where
  here : {r : Region} {rs : List Region} → Within a r → InSome a (r ∷ rs)
  there : {r : Region} {rs : List Region} → InSome a rs → InSome a (r ∷ rs)

-- No region runs over the end of the address space.
abbrev pub NoWrap : List Region → Type 0
NoWrap rs = All (λ r. r.vaddr + r.size < u64_mod) rs

in_a_region-InSome : (a : ℕ) (rs : List Region) → NoWrap rs → in_a_region a rs ≡ true → InSome a rs
unfolding in_a_region
in_a_region-InSome a [] w h = cc
in_a_region-InSome a (r ∷ rs) w h =
    elim (Bool-cases (leb r.vaddr a && ltb a (add64 r.vaddr r.size))) [
      | inl e ↦ here (ground arith)
      | inr e ↦ there (in_a_region-InSome a rs w.1 (rw e at h))
    ]

InSome-in_a_region : (a : ℕ) (rs : List Region) → NoWrap rs → InSome a rs → in_a_region a rs ≡ true
unfolding in_a_region
InSome-in_a_region a [] w m = elim m [ ]
InSome-in_a_region a (r ∷ rs) w (here l) = ground arith
InSome-in_a_region a (r ∷ rs) w (there m) = ground (arith, InSome-in_a_region a rs w.1 m)

-- An address is valid exactly if it is not null and lies in a region of the process.
pub valid_address_iff :
    (a : ℕ) (p : Process)
    → NoWrap p.memories
    → (valid_address a p ≡ true) ↔ ((a ≢ 0) × InSome a p.memories)
unfolding valid_address
valid_address_iff a p w = (
  λ h. elim (Bool-cases (a == 0)) [
    | inl e ↦ absurd (false≢true (rw e at h))
    | inr e ↦ (ground arith, in_a_region-InSome a p.memories w (rw e at h))
  ],
  λ (n, m). let e : (a == 0) ≡ false = ground arith in rw e (InSome-in_a_region a p.memories w m),
)

-- Every address of a region that has been added is valid, the null address excepted, and so is
-- every address that was valid before.
pub valid_address-add :
    (a vaddr paddr bytes flags : ℕ) (p : Process)
    → vaddr + bytes < u64_mod
    → valid_address a (add_memory_region vaddr paddr bytes flags p)
      ≡ ((not (a == 0) && (leb vaddr a && ltb a (vaddr + bytes))) || valid_address a p)
unfolding valid_address add_memory_region in_a_region region
valid_address-add a vaddr paddr bytes flags p w = ground arith

-- Removing the region that was added last gives the regions of before.
pub remove-add :
    (vaddr paddr bytes flags : ℕ) (p : Process)
    → remove_memory_region vaddr (add_memory_region vaddr paddr bytes flags p) ≡ p
unfolding remove_memory_region add_memory_region remove_first region
remove-add vaddr paddr bytes flags p = ground arith
