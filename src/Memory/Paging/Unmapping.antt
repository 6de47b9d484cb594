-- ===== src/Memory/Paging/Unmapping.antt =====
-- `unmap` and `unmap_pages`, kernel/src/memory/virtual_memory_manager.cpp, of pages that are mapped.
use lensor_os.Prelude.{
  ℕ, zero, suc, ◌+◌, ◌*◌, ◌/◌, ◌%◌, ◌^◌, ◌≡◌, ◌≢◌, ◌∙◌, ◌⊎◌, inl, inr, refl, sym, ap, ◌≤◌, ◌<◌,
  true, false, Option, some, none, List, [], ◌∷◌, arith, ltb, Option-cases, length,
}
use lensor_os.Prelude.Words.{u64_mod, add64}
use lensor_os.Memory.Physical.{page_size}
use lensor_os.Memory.Paging.{
  PageTables, present, flag, entry_address, set_flag, PageMapIndexer, page_map_indexer, write_entry,
  map_pages, unmap, unmap_pages, unmap_pages_rounds,
}
use lensor_os.Memory.Paging.Entry.{present-set_flag}
use lensor_os.Memory.Paging.Tree.{Paths, IsTree, resolve, Ready}
use lensor_os.Memory.Paging.Translation.{
  translate, frame, indices, indices_apart, written_entry, written_above, written-IsTree,
  written_other,
}
use lensor_os.Memory.Paging.Runs.{thrice, map_pages-MapsRun}

pub record Unmaps (root : ℕ) (s : PageTables) (v : ℕ) (s' : PageTables) : Type 0 where
  pub gone : translate s' root v ≡ none
  pub others :
      (w : ℕ) → v / 4096 % 2 ^ 36 ≢ w / 4096 % 2 ^ 36 → translate s' root w ≡ translate s root w

-- An entry that is reached has its way there.
module _ (root : ℕ) (path : Paths) (s : PageTables) (v found : ℕ) (tree : IsTree root path s)
    (there : resolve s root (indices v) ≡ some found) where
  abbrev jx : PageMapIndexer
  jx = page_map_indexer v

  t1 : ℕ
  t1 = entry_address (s.entries root jx.page_directory_pointer)

  t2 : ℕ
  t2 = entry_address (s.entries t1 jx.page_directory)

  t3 : ℕ
  t3 = entry_address (s.entries t2 jx.page_table)

  on1 : flag present (s.entries root jx.page_directory_pointer) ≡ true
  on1 = ground (arith, there)

  on2 : flag present (s.entries t1 jx.page_directory) ≡ true
  unfolding t1
  on2 = ground (arith, there)

  on3 : flag present (s.entries t2 jx.page_table) ≡ true
  unfolding t2 t1
  on3 = ground (arith, there)

  path1 : path t1 ≡ some (jx.page_directory_pointer ∷ [])
  unfolding t1
  path1 = tree.child root jx.page_directory_pointer [] tree.rooted (omega arith) on1

  path2 : path t2 ≡ some (jx.page_directory_pointer ∷ jx.page_directory ∷ [])
  unfolding t2
  path2 = tree.child t1 jx.page_directory _ path1 (omega arith) on2

  path3 : path t3 ≡ some (jx.page_directory_pointer ∷ jx.page_directory ∷ jx.page_table ∷ [])
  unfolding t3
  path3 = tree.child t2 jx.page_table _ path2 (omega arith) on3

  value : ℕ
  value = set_flag present false (s.entries t3 jx.page)

  abbrev cleared : PageTables
  cleared = write_entry t3 jx.page value s

  unmap_step : unmap root v s ≡ cleared
  unfolding unmap value t3 t2 t1
  unmap_step = refl

  kept :
      (u j : ℕ) (q : List ℕ) → path u ≡ some q → length q < 3 → cleared.entries u j ≡ s.entries u j
  kept = written_above root path s tree t3 jx.page value _ path3 refl

  cleared_entry : flag present (cleared.entries t3 jx.page) ≡ false
  unfolding value
  cleared_entry =
      let e = written_entry root path s tree t3 jx.page value _ path3 refl t3 jx.page in
      ground (arith, e, present-set_flag false (s.entries t3 jx.page))

  resolves_no_more : resolve cleared root (indices v) ≡ none
  unfolding t3 t2 t1
  resolves_no_more =
      let s1 = kept root jx.page_directory_pointer [] tree.rooted (omega arith) in
      let s2 = kept t1 jx.page_directory _ path1 (omega arith) in
      let s3 = kept t2 jx.page_table _ path2 (omega arith) in
      rw (s1, on1, s2, on2, s3, on3, cleared_entry) refl

  pub unmap-Unmaps : Unmaps root s v (unmap root v s) × IsTree root path (unmap root v s)
  unmap-Unmaps = rw unmap_step (
    record {
      gone = ap frame resolves_no_more;
      others = λ w off. ap frame (
          written_other root path s tree t3 jx.page value _ path3 refl root [] (indices w)
            tree.rooted refl (λ e. indices_apart v w off (sym e)));
    },
    written-IsTree root path s tree t3 jx.page value _ path3 refl,
  )

-- A page that is translated has an entry that is reached.
unmap_translated :
    (root : ℕ) (path : Paths) (s : PageTables) (v : ℕ)
    → IsTree root path s
    → translate s root v ≢ none
    → Unmaps root s v (unmap root v s) × IsTree root path (unmap root v s)
unmap_translated root path s v tree there = elim (Option-cases (resolve s root (indices v))) [
  | inl e ↦ absurd (there (ap frame e))
  | inr (found, e) ↦ unmap-Unmaps root path s v found tree e
]

pub record UnmapsRun (root k : ℕ) (s : PageTables) (v : ℕ) (s' : PageTables) : Type 0 where
  pub gone : (j : ℕ) → j < k → translate s' root (v + j * 4096) ≡ none
  pub others :
      (w : ℕ)
      → (w / 4096 % 2 ^ 36 < v / 4096) ⊎ (v / 4096 + k ≤ w / 4096 % 2 ^ 36)
      → translate s' root w ≡ translate s root w

module _ (root k : ℕ) (s s1 s' : PageTables) (v : ℕ) (low : v + suc k * 4096 ≤ 2 ^ 48)
    (page : v % 4096 ≡ 0) (first : Unmaps root s v s1)
    (later : UnmapsRun root k s1 (v + 4096) s') where
  one_more_gone : (j : ℕ) → j < suc k → translate s' root (v + j * 4096) ≡ none
  one_more_gone zero b =
      let e : v + 0 * 4096 ≡ v = omega arith in
      rw e (later.others v (inl (omega arith)) ∙ first.gone)
  one_more_gone (suc j) b =
      let e : v + suc j * 4096 ≡ v + 4096 + j * 4096 = omega arith in
      rw e (later.gone j (omega arith))

  one_more_unmapped : UnmapsRun root (suc k) s v s'
  one_more_unmapped = record {
    gone = one_more_gone;
    others = λ w off. elim off [
      | inl l ↦ later.others w (inl (omega arith)) ∙ first.others w (omega arith)
      | inr u ↦ later.others w (inr (omega arith)) ∙ first.others w (omega arith)
    ];
  }

-- All of a run of pages are translated.
abbrev pub Mapped : ℕ → ℕ → PageTables → ℕ → Type 0
Mapped root k s v = (j : ℕ) → j < k → translate s root (v + j * 4096) ≢ none

still-Mapped :
    (root k : ℕ) (s s1 : PageTables) (v : ℕ)
    → v + suc k * 4096 ≤ 2 ^ 48
    → v % 4096 ≡ 0
    → Unmaps root s v s1
    → Mapped root (suc k) s v
    → Mapped root k s1 (v + 4096)
still-Mapped root k s s1 v low page first all j b e =
    let same : v + suc j * 4096 ≡ v + 4096 + j * 4096 = omega arith in
    let apart : v / 4096 % 2 ^ 36 ≢ (v + 4096 + j * 4096) / 4096 % 2 ^ 36 = omega arith in
    (rw same at (all (suc j) (omega arith))) (sym (first.others (v + 4096 + j * 4096) apart) ∙ e)

unmap_pages_rounds-UnmapsRun :
    (k root : ℕ) (path : Paths) (s : PageTables) (v : ℕ)
    → IsTree root path s
    → v % 4096 ≡ 0
    → v + k * 4096 ≤ 2 ^ 48
    → Mapped root k s v
    → UnmapsRun root k s v (unmap_pages_rounds k root v (v + k * 4096) s)
unfolding unmap_pages_rounds
unmap_pages_rounds-UnmapsRun zero root path s v tree e l all = record {
  gone = λ j b. absurd (omega arith);
  others = λ w n. refl;
}
unmap_pages_rounds-UnmapsRun (suc k) root path s v tree e l all =
    let t : ltb v (v + suc k * 4096) ≡ true = ground arith in
    let a : add64 v page_size ≡ v + 4096 = omega arith in
    let end : v + suc k * 4096 ≡ v + 4096 + k * 4096 = omega arith in
    let z : v + 0 * 4096 ≡ v = omega arith in
    let (first, tree') = unmap_translated root path s v tree (rw z at (all 0 (omega arith))) in
    let later =
      unmap_pages_rounds-UnmapsRun k root path (unmap root v s) (v + 4096) tree' (omega arith)
        (omega arith) (still-Mapped root k s (unmap root v s) v l e first all) in
    rw (t, a, end) (one_more_unmapped root k s _ _ v l e first later)

-- A run of translated pages that is unmapped is translated no more, and every other page is as before.
pub unmap_pages-UnmapsRun :
    (k root : ℕ) (path : Paths) (s : PageTables) (v : ℕ)
    → IsTree root path s
    → v % 4096 ≡ 0
    → v + k * 4096 ≤ 2 ^ 48
    → Mapped root k s v
    → UnmapsRun root k s v (unmap_pages root v k s)
unfolding unmap_pages
unmap_pages-UnmapsRun k root path s v tree e l all =
    let end : add64 v (k * page_size % u64_mod) ≡ v + k * 4096 = omega arith in
    rw (unmap_pages, end) (unmap_pages_rounds-UnmapsRun k root path s v tree e l all)

absurd_of : {a : Option ℕ} {b : ℕ} → a ≡ some b → a ≡ none → ⊥
absurd_of e n = cc

-- In page tables that form a tree, with three free pages for each page to map, after map_pages and
-- unmap_pages of a run of whole pages below 2^48 no address at the start of these pages is
-- translated, and every address in another page translates as it did before both.
pub unmap_pages-map_pages :
    (k root : ℕ) (path : Paths) (s : PageTables) (v physical m : ℕ)
    → IsTree root path s
    → 0 < root
    → v % 4096 ≡ 0
    → v + k * 4096 ≤ 2 ^ 48
    → physical % 4096 ≡ 0
    → physical + k * 4096 ≤ 2 ^ 52
    → flag present m ≡ true
    → Ready (thrice k) s.physical
    → UnmapsRun root k s v (unmap_pages root v k (map_pages root v physical m k s))
unmap_pages-map_pages k root path s v physical m tree there e l e' l' on ready =
    let (maps, (path', tree')) =
      map_pages-MapsRun k root path s v physical m tree there e l e' l' on ready in
    let run =
      unmap_pages-UnmapsRun k root path' _ v tree' e l (λ j b n. absurd_of (maps.to j b) n) in
    record { gone = run.gone; others = λ w off. run.others w off ∙ maps.others w off }
