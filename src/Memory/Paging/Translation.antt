-- ===== src/Memory/Paging/Translation.antt =====
-- What an address is translated to after `map` and `unmap`,
-- kernel/src/memory/virtual_memory_manager.cpp.
use lensor_os.Prelude.{
  ℕ, suc, ◌+◌, ◌/◌, ◌%◌, ◌^◌, ◌≡◌, ◌≢◌, ◌∙◌, inl, inr, refl, sym, ap, ◌<◌, true, false, Option,
  none, some, List, [], ◌∷◌, ◌++◌, arith, if◌then◌else◌, ◌==◌, ◌&&◌, length, Bool-cases, subst,
  append_assoc,
}
use lensor_os.Memory.Paging.{
  PageTables, present, flag, entry_address, set_address, set_flags, passed_flags, PageMapIndexer,
  page_map_indexer, write_entry, enter, map,
}
use lensor_os.Memory.Paging.Entry.{address-set_address, address-set_flags, present-set_passed}
use lensor_os.Memory.Paging.Tree.{Paths, IsTree, resolve, Ready, length_snoc}
use lensor_os.Memory.Paging.Descent.{Entered, enter-Entered}

abbrev pub indices : ℕ → List ℕ
indices v =
    let x = page_map_indexer v in
    x.page_directory_pointer ∷ x.page_directory ∷ x.page_table ∷ x.page ∷ []

abbrev pub frame : Option ℕ → Option ℕ
frame none = none
frame (some e) = some (entry_address e)

-- The page that the processor finds for an address in the page map at the root.
abbrev pub translate : PageTables → ℕ → ℕ → Option ℕ
translate s root v = frame (resolve s root (indices v))

-- Two addresses in different pages have different indices.
pub indices_apart : (v w : ℕ) → v / 4096 % 2 ^ 36 ≢ w / 4096 % 2 ^ 36 → indices v ≢ indices w
unfolding page_map_indexer
indices_apart v w n e =
    let e1 : v / 2 ^ 39 % 512 ≡ w / 2 ^ 39 % 512 = cc in
    let e2 : v / 2 ^ 30 % 512 ≡ w / 2 ^ 30 % 512 = cc in
    let e3 : v / 2 ^ 21 % 512 ≡ w / 2 ^ 21 % 512 = cc in
    let e4 : v / 2 ^ 12 % 512 ≡ w / 2 ^ 12 % 512 = cc in n (omega arith)

-- A write to an entry of the last level.
module _ (root : ℕ) (path : Paths) (s : PageTables) (tree : IsTree root path s) (pt page value : ℕ)
    (p : List ℕ) (here : path pt ≡ some p) (leaf : length p ≡ 3) where
  abbrev pub written : PageTables
  written = write_entry pt page value s

  pub written_entry :
      (u j : ℕ)
      → written.entries u j
        ≡ (if u == pt then (if j == page then value else s.entries u j) else s.entries u j)
  unfolding write_entry
  written_entry u j = refl

  same_path : (u : ℕ) (q : List ℕ) → path u ≡ some q → (u == pt) ≡ true → p ≡ q
  same_path u q e y =
      let k : u ≡ pt = ground arith in
      let e' : path pt ≡ some q = subst (λ (w : ℕ). path w ≡ some q) k e in cc

  pub written_above :
      (u j : ℕ) (q : List ℕ) → path u ≡ some q → length q < 3 → written.entries u j ≡ s.entries u j
  written_above u j q e l = elim (Bool-cases (u == pt)) [
    | inl y ↦ let l' : length p ≡ length q = ap length (same_path u q e y) in absurd (omega arith)
    | inr n ↦ ground (arith, written_entry u j)
  ]

  pub written-IsTree : IsTree root path written
  unfolding write_entry
  written-IsTree = record {
    sound = tree.sound;
    narrow = tree.narrow;
    rooted = tree.rooted;
    child = λ u j q e l o.
        let same = written_above u j q e l in rw same (tree.child u j q e l (rw same at o));
    held = tree.held;
  }

  -- Every other entry of the last level is reached as before.
  pub written_other :
      (u : ℕ) (q is : List ℕ)
      → path u ≡ some q
      → length q + length is ≡ 4
      → q ++ is ≢ p ++ (page ∷ [])
      → resolve written u is ≡ resolve s u is
  written_other u q [] e l off = refl
  written_other u q (i ∷ []) e l off = elim (Bool-cases ((u == pt) && (i == page))) [
    | inl y ↦
        let k = same_path u q e (ground arith) in
        let k' : i ≡ page = ground arith in absurd (off (rw (k', k) refl))
    | inr n ↦
        let same : written.entries u i ≡ s.entries u i = ground (arith, written_entry u i) in
        rw same refl
  ]
  written_other u q (i ∷ j ∷ is) e l off =
      let same = written_above u i q e (omega arith) in
      elim (Bool-cases (flag present (s.entries u i))) [
        | inl on ↦
            rw (same, on)
              (written_other (entry_address (s.entries u i)) (q ++ (i ∷ [])) (j ∷ is)
                (tree.child u i q e (omega arith) on) (omega (arith, length_snoc q i))
                (rw (append_assoc q (i ∷ []) (j ∷ is)) off))
        | inr no_entry ↦ rw (same, no_entry) refl
      ]

-- What `map` promises of an address, and of those in other pages.
pub record Maps (root : ℕ) (s : PageTables) (v physical : ℕ) (s' : PageTables) : Type 0 where
  pub to : translate s' root v ≡ some physical
  pub others :
      (w : ℕ) → v / 4096 % 2 ^ 36 ≢ w / 4096 % 2 ^ 36 → translate s' root w ≡ translate s root w

module _ (n root : ℕ) (path : Paths) (s : PageTables) (v physical m : ℕ) (tree : IsTree root path s)
    (there : 0 < root) (aligned : physical % 4096 ≡ 0) (small : physical < 2 ^ 52)
    (on : flag present m ≡ true) (ready : Ready (suc (suc (suc n))) s.physical) where
  ix : PageMapIndexer
  ix = page_map_indexer v

  r1 : ℕ × PageTables
  r1 = enter root ix.page_directory_pointer m s

  e1 : Entered root root ix.page_directory_pointer [] (suc (suc n)) path s r1
  unfolding r1
  e1 =
      enter-Entered root root ix.page_directory_pointer [] (suc (suc n)) m path s tree tree.rooted
        (omega arith) on ready

  r2 : ℕ × PageTables
  r2 = enter r1.0 ix.page_directory m r1.1

  e2 : Entered root r1.0 ix.page_directory (ix.page_directory_pointer ∷ []) (suc n) e1.path' r1.1 r2
  unfolding r2
  e2 =
      enter-Entered root r1.0 ix.page_directory (ix.page_directory_pointer ∷ []) (suc n) m e1.path'
        r1.1 e1.tree e1.there (omega arith) on e1.ready

  r3 : ℕ × PageTables
  r3 = enter r2.0 ix.page_table m r2.1

  e3 :
      Entered root r2.0 ix.page_table
        (ix.page_directory_pointer ∷ ix.page_directory ∷ [])
        n
        e2.path'
        r2.1
        r3
  unfolding r3
  e3 =
      enter-Entered root r2.0 ix.page_table (ix.page_directory_pointer ∷ ix.page_directory ∷ []) n m
        e2.path' r2.1 e2.tree e2.there (omega arith) on e2.ready

  value : ℕ
  value = set_flags passed_flags m (set_address physical (r3.1.entries r3.0 ix.page))

  abbrev mapped : PageTables
  mapped = write_entry r3.0 ix.page value r3.1

  value-on : flag present value ≡ true
  unfolding value
  value-on = present-set_passed m (set_address physical (r3.1.entries r3.0 ix.page)) ∙ on

  value-leads : entry_address value ≡ physical
  unfolding value
  value-leads =
      address-set_flags passed_flags m (set_address physical (r3.1.entries r3.0 ix.page))
      ∙ address-set_address physical (r3.1.entries r3.0 ix.page) (omega arith) small

  map_step : map root v physical m s ≡ mapped
  unfolding map value r3 r2 r1 ix
  map_step = let t : (root == 0) ≡ false = ground arith in rw (map, t) refl

  root1 : e1.path' root ≡ some []
  root1 = e1.extends root [] tree.rooted

  root2 : e2.path' root ≡ some []
  root2 = e2.extends root [] root1

  root3 : e3.path' root ≡ some []
  root3 = e3.extends root [] root2

  pdp2 : e2.path' r1.0 ≡ some (ix.page_directory_pointer ∷ [])
  pdp2 = e2.extends r1.0 _ e1.there

  -- The way to the last level, in the end.
  way1 :
      (flag present (r3.1.entries root ix.page_directory_pointer) ≡ true)
      × (entry_address (r3.1.entries root ix.page_directory_pointer) ≡ r1.0)
  way1 =
      let (o, a) = e2.keeps root ix.page_directory_pointer [] root1 e1.on (omega arith) in
      let (o', a') = e3.keeps root ix.page_directory_pointer [] root2 o (omega arith) in
      (o', a' ∙ a ∙ e1.leads)

  way2 :
      (flag present (r3.1.entries r1.0 ix.page_directory) ≡ true)
      × (entry_address (r3.1.entries r1.0 ix.page_directory) ≡ r2.0)
  way2 =
      let (o, a) =
        e3.keeps r1.0 ix.page_directory (ix.page_directory_pointer ∷ []) pdp2 e2.on (omega arith) in
      (o, a ∙ e2.leads)

  above :
      (u j : ℕ) (q : List ℕ)
      → e3.path' u ≡ some q
      → length q < 3
      → mapped.entries u j ≡ r3.1.entries u j
  above = written_above root e3.path' r3.1 e3.tree r3.0 ix.page value _ e3.there refl

  mapped_entry : mapped.entries r3.0 ix.page ≡ value
  mapped_entry =
      let e =
        written_entry root e3.path' r3.1 e3.tree r3.0 ix.page value _ e3.there refl r3.0 ix.page in
      ground (arith, e)

  resolves : resolve mapped root (indices v) ≡ some value
  unfolding ix
  resolves =
      let (o1, a1) = way1 in
      let (o2, a2) = way2 in
      let s1 = above root ix.page_directory_pointer [] root3 (omega arith) in
      let s2 =
        above r1.0 ix.page_directory (ix.page_directory_pointer ∷ []) (e3.extends r1.0 _ pdp2)
          (omega arith) in
      let s3 =
        above r2.0 ix.page_table (ix.page_directory_pointer ∷ ix.page_directory ∷ [])
          (e3.extends r2.0 _ e2.there) (omega arith) in
      rw (s1, o1, a1, s2, o2, a2, s3, e3.on, e3.leads, mapped_entry, value-on) refl

  before : (w : ℕ) → resolve r3.1 root (indices w) ≡ resolve s root (indices w)
  before w =
      e3.same root [] (indices w) root2 refl
      ∙ e2.same root [] (indices w) root1 refl
      ∙ e1.same root [] (indices w) tree.rooted refl

  elsewhere :
      (w : ℕ)
      → v / 4096 % 2 ^ 36 ≢ w / 4096 % 2 ^ 36
      → resolve mapped root (indices w) ≡ resolve s root (indices w)
  unfolding ix
  elsewhere w off =
      written_other root e3.path' r3.1 e3.tree r3.0 ix.page value _ e3.there refl root []
        (indices w) root3 refl (λ e. indices_apart v w off (sym e))
      ∙ before w

  Ready-after : Ready n mapped.physical
  unfolding write_entry
  Ready-after = e3.ready

  -- The page is mapped, every other one translates as before, and the tables form a tree again.
  pub map-Maps :
      Maps root s v physical (map root v physical m s)
      × ((path' : Paths) × IsTree root path' (map root v physical m s))
      × Ready n (map root v physical m s).physical
  map-Maps = rw map_step (
    record {
      to = ap frame resolves ∙ ap some value-leads;
      others = λ w off. ap frame (elsewhere w off);
    },
    (e3.path', written-IsTree root e3.path' r3.1 e3.tree r3.0 ix.page value _ e3.there refl),
    Ready-after,
  )
