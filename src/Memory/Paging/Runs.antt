-- ===== src/Memory/Paging/Runs.antt =====
-- `map_pages`, kernel/src/memory/virtual_memory_manager.cpp: a run of pages is mapped to a run.
use lensor_os.Prelude.{
  ℕ, zero, suc, ◌+◌, ◌*◌, ◌/◌, ◌%◌, ◌^◌, ◌≡◌, ◌∙◌, ◌⊎◌, inl, inr, refl, ◌≤◌, ◌<◌, true, some, arith,
  ltb,
}
use lensor_os.Prelude.Words.{u64_mod, add64}
use lensor_os.Memory.Physical.{page_size}
use lensor_os.Memory.Paging.{PageTables, present, flag, map, map_pages, map_pages_rounds}
use lensor_os.Memory.Paging.Tree.{Paths, IsTree, Ready}
use lensor_os.Memory.Paging.Translation.{translate, Maps, map-Maps}

-- Each page takes three tables at most.
abbrev pub thrice : ℕ → ℕ
thrice zero = zero
thrice (suc k) = suc (suc (suc (thrice k)))

pub record MapsRun (root k : ℕ) (s : PageTables) (v physical : ℕ) (s' : PageTables) : Type 0 where
  pub to : (j : ℕ) → j < k → translate s' root (v + j * 4096) ≡ some (physical + j * 4096)
  pub others :
      (w : ℕ)
      → (w / 4096 % 2 ^ 36 < v / 4096) ⊎ (v / 4096 + k ≤ w / 4096 % 2 ^ 36)
      → translate s' root w ≡ translate s root w

module _ (root k : ℕ) (s s1 s' : PageTables) (v physical : ℕ) (low : v + suc k * 4096 ≤ 2 ^ 48)
    (page : v % 4096 ≡ 0) (first : Maps root s v physical s1)
    (later : MapsRun root k s1 (v + 4096) (physical + 4096) s') where
  one_more_to : (j : ℕ) → j < suc k → translate s' root (v + j * 4096) ≡ some (physical + j * 4096)
  one_more_to zero b =
      let e : v + 0 * 4096 ≡ v = omega arith in
      let e' : physical + 0 * 4096 ≡ physical = omega arith in
      rw (e, e') (later.others v (inl (omega arith)) ∙ first.to)
  one_more_to (suc j) b =
      let e : v + suc j * 4096 ≡ v + 4096 + j * 4096 = omega arith in
      let e' : physical + suc j * 4096 ≡ physical + 4096 + j * 4096 = omega arith in
      rw (e, e') (later.to j (omega arith))

  one_more : MapsRun root (suc k) s v physical s'
  one_more = record {
    to = one_more_to;
    others = λ w off. elim off [
      | inl l ↦ later.others w (inl (omega arith)) ∙ first.others w (omega arith)
      | inr u ↦ later.others w (inr (omega arith)) ∙ first.others w (omega arith)
    ];
  }

map_pages_rounds-MapsRun :
    (k root : ℕ) (path : Paths) (s : PageTables) (v physical m : ℕ)
    → IsTree root path s
    → 0 < root
    → v % 4096 ≡ 0
    → v + k * 4096 ≤ 2 ^ 48
    → physical % 4096 ≡ 0
    → physical + k * 4096 ≤ 2 ^ 52
    → flag present m ≡ true
    → Ready (thrice k) s.physical
    → let s' = map_pages_rounds k root v physical (v + k * 4096) m s in
      MapsRun root k s v physical s' × ((path' : Paths) × IsTree root path' s')
unfolding map_pages_rounds
map_pages_rounds-MapsRun zero root path s v physical m tree there e l e' l' on ready =
    (record { to = λ j b. absurd (omega arith); others = λ w n. refl }, (path, tree))
map_pages_rounds-MapsRun (suc k) root path s v physical m tree there e l e' l' on ready =
    let t : ltb v (v + suc k * 4096) ≡ true = ground arith in
    let a : add64 v page_size ≡ v + 4096 = omega arith in
    let a' : add64 physical page_size ≡ physical + 4096 = omega arith in
    let end : v + suc k * 4096 ≡ v + 4096 + k * 4096 = omega arith in
    let (first, (path', tree'), ready') =
      map-Maps (thrice k) root path s v physical m tree there e' (omega arith) on ready in
    let (later, hangs) =
      map_pages_rounds-MapsRun k root path' (map root v physical m s) (v + 4096) (physical + 4096) m
        tree' there (omega arith) (omega arith) (omega arith) (omega arith) on ready' in
    rw (t, a, a', end) (one_more root k s _ _ v physical l e first later, hangs)

-- In page tables that form a tree, with three free pages for each page to map, map_pages of a run of
-- whole pages below 2^48 with the flag Present makes each of these pages translate to the page of
-- the physical run with the same number; every address in another page translates as before, and
-- the tables form a tree again.
pub map_pages-MapsRun :
    (k root : ℕ) (path : Paths) (s : PageTables) (v physical m : ℕ)
    → IsTree root path s
    → 0 < root
    → v % 4096 ≡ 0
    → v + k * 4096 ≤ 2 ^ 48
    → physical % 4096 ≡ 0
    → physical + k * 4096 ≤ 2 ^ 52
    → flag present m ≡ true
    → Ready (thrice k) s.physical
    → let s' = map_pages root v physical m k s in
      MapsRun root k s v physical s' × ((path' : Paths) × IsTree root path' s')
unfolding map_pages
map_pages-MapsRun k root path s v physical m tree there e l e' l' on ready =
    let end : add64 v (k * page_size % u64_mod) ≡ v + k * 4096 = omega arith in
    rw (map_pages, end)
      (map_pages_rounds-MapsRun k root path s v physical m tree there e l e' l' on ready)
