-- ===== src/Memory/Paging/Descent.antt =====
-- One descent of `map`, kernel/src/memory/virtual_memory_manager.cpp: the entry leads to a table
-- afterwards, which is a fresh and empty one if there was none, and no address resolves to anything
-- else.
use lensor_os.Prelude.{
  ℕ, suc, ◌+◌, ◌*◌, ◌/◌, ◌%◌, ◌^◌, ◌≡◌, ◌∙◌, inl, inr, refl, sym, ap, ◌<◌, true, false, false≢true,
  none, some, List, [], ◌∷◌, ◌++◌, arith, if◌then◌else◌, ◌==◌, ◌&&◌, length, Bool-cases,
  Option-cases, subst,
}
use lensor_os.Memory.Physical.{page_size, request_page}
use lensor_os.Memory.Physical.Locks.{locked}
use lensor_os.Memory.Physical.Invariant
use lensor_os.Memory.Paging.{pointer}
use lensor_os.Memory.Paging.{
  PageTables, present, flag, entry_address, set_address, or_flags, passed_flags, present_entry,
  clear_table, write_entry, enter,
}
use lensor_os.Memory.Paging.Entry.{address-set_address, address-or_flags, present-or_passed}
use lensor_os.Memory.Paging.Tree.{
  Paths, IsTree, resolve, Ready, Ready-less, Compatible, resolve_same,
}

nothing_present : flag present 0 ≡ false
unfolding flag
nothing_present = refl

-- What a descent from a table at an index promises.
pub record Entered (root t i : ℕ) (p : List ℕ) (n : ℕ) (path : Paths) (s : PageTables)
    (r : ℕ × PageTables) : Type 0 where
  pub path' : Paths
  pub tree : IsTree root path' r.1
  pub there : path' r.0 ≡ some (p ++ (i ∷ []))
  pub on : flag present (r.1.entries t i) ≡ true
  pub leads : entry_address (r.1.entries t i) ≡ r.0
  pub ready : Ready n r.1.physical
  pub extends : (u : ℕ) (q : List ℕ) → path u ≡ some q → path' u ≡ some q
  pub keeps :
      (u j : ℕ) (q : List ℕ)
      → path u ≡ some q
      → flag present (s.entries u j) ≡ true
      → length q < 3
      → (flag present (r.1.entries u j) ≡ true)
        × (entry_address (r.1.entries u j) ≡ entry_address (s.entries u j))
  pub same :
      (u : ℕ) (q is : List ℕ)
      → path u ≡ some q
      → length q + length is ≡ 4
      → resolve r.1 u is ≡ resolve s u is

module _ (root t i : ℕ) (p : List ℕ) (n m : ℕ) (path : Paths) (s : PageTables)
    (tree : IsTree root path s) (here : path t ≡ some p) (inner : length p < 3)
    (on : flag present m ≡ true) (ready : Ready (suc n) s.physical) where
  -- The entry is present: only its flags change.
  flagged : PageTables
  flagged = write_entry t i (or_flags passed_flags m (s.entries t i)) s

  flagged-same :
      (u j : ℕ)
      → flagged.entries u j ≡ (
          if u == t
          then (if j == i then or_flags passed_flags m (s.entries t i) else s.entries u j)
          else s.entries u j)
  unfolding flagged write_entry
  flagged-same u j = refl

  flagged-keeps :
      (u j : ℕ)
      → flag present (s.entries u j) ≡ true
      → (flag present (flagged.entries u j) ≡ true)
        × (entry_address (flagged.entries u j) ≡ entry_address (s.entries u j))
  flagged-keeps u j e = ground (
    arith,
    flagged-same u j,
    present-or_passed m (s.entries t i) on,
    address-or_flags passed_flags m (s.entries t i),
  )

  flagged-on : flag present (flagged.entries t i) ≡ true
  flagged-on = ground (arith, flagged-same t i, present-or_passed m (s.entries t i) on)

  flagged-leads : entry_address (flagged.entries t i) ≡ entry_address (s.entries t i)
  flagged-leads = ground (arith, flagged-same t i, address-or_flags passed_flags m (s.entries t i))

  flagged-off :
      flag present (s.entries t i) ≡ true
      → (u j : ℕ) → flag present (flagged.entries u j) ≡ flag present (s.entries u j)
  flagged-off e u j = ground (arith, flagged-same u j, e, present-or_passed m (s.entries t i) on)

  flagged-leaves :
      (u j : ℕ) (q : List ℕ) → path u ≡ some q → length q ≡ 3 → flagged.entries u j ≡ s.entries u j
  flagged-leaves u j q e l = elim (Bool-cases (u == t)) [
    | inl y ↦
        let k : u ≡ t = ground arith in
        let e' : path t ≡ some q = subst (λ (w : ℕ). path w ≡ some q) k e in
        let c : p ≡ q = cc in let l' : length p ≡ 3 = ap length c ∙ l in absurd (omega arith)
    | inr n' ↦ ground (arith, flagged-same u j)
  ]

  flagged-IsTree : flag present (s.entries t i) ≡ true → IsTree root path flagged
  unfolding flagged write_entry
  flagged-IsTree e = record {
    sound = tree.sound;
    narrow = tree.narrow;
    rooted = tree.rooted;
    child = λ u j q e' l o.
        let before : flag present (s.entries u j) ≡ true = sym (flagged-off e u j) ∙ o in
        rw ((flagged-keeps u j before).1) (tree.child u j q e' l before);
    held = tree.held;
  }

  flagged-Entered :
      flag present (s.entries t i) ≡ true
      → Entered root t i p n path s (entry_address (s.entries t i), flagged)
  unfolding flagged write_entry
  flagged-Entered e = record {
    path' = path;
    tree = flagged-IsTree e;
    there = tree.child t i p here inner e;
    on = flagged-on;
    leads = flagged-leads;
    ready = Ready-less n s.physical ready;
    extends = λ u q e'. e';
    keeps = λ u j q e' o l. flagged-keeps u j o;
    same =
        resolve_same root path s flagged tree
          (λ u j q e' l. inl (flagged-off e u j, λ o. (flagged-keeps u j o).1)) flagged-leaves;
  }

  -- The entry is not present: it leads to the page that is requested, cleared.
  fresh : ℕ
  fresh = pointer (request_page s.physical).0

  made : PageTables
  made =
      write_entry t i (or_flags passed_flags m (set_address fresh (s.entries t i)))
        (clear_table fresh (record s { physical = (request_page s.physical).1 }))

  paths : Paths
  paths u = if u == fresh then some (p ++ (i ∷ [])) else path u

  fresh_page : fresh ≡ ready.0 * page_size
  unfolding fresh pointer
  fresh_page = let e = ready.1.at in rw e refl

  fresh_none : path fresh ≡ none
  fresh_none = elim (Option-cases (path fresh)) [
    | inl e ↦ e
    | inr (q, e) ↦
        let (_, l) = tree.held fresh q e in
        let same : fresh / page_size ≡ ready.0 = omega (arith, fresh_page) in
        absurd (false≢true (sym ready.1.was_free ∙ (rw same at l)))
  ]

  other_than_fresh : (u : ℕ) (q : List ℕ) → path u ≡ some q → (u == fresh) ≡ false
  other_than_fresh u q e = elim (Bool-cases (u == fresh)) [
    | inl y ↦
        let k : u ≡ fresh = ground arith in
        absurd (ground (arith, subst (λ (w : ℕ). path w ≡ some q) k e, fresh_none))
    | inr n' ↦ n'
  ]

  made_entry :
      (u j : ℕ)
      → made.entries u j ≡ (
          if u == t
          then (if j == i
              then or_flags passed_flags m (set_address fresh (s.entries t i))
              else (if u == fresh then 0 else s.entries u j))
          else (if u == fresh then 0 else s.entries u j))
  unfolding made write_entry clear_table
  made_entry u j = refl

  made-on : flag present (made.entries t i) ≡ true
  made-on =
      ground (arith, made_entry t i, present-or_passed m (set_address fresh (s.entries t i)) on)

  made-leads : entry_address (made.entries t i) ≡ fresh
  made-leads =
      let a = address-or_flags passed_flags m (set_address fresh (s.entries t i)) in
      let small : fresh < 2 ^ 52 = omega (arith, fresh_page, ready.1.in_memory, tree.narrow) in
      let b = address-set_address fresh (s.entries t i) (omega (arith, fresh_page)) small in
      ground (arith, made_entry t i, a ∙ b)

  made_cleared : (j : ℕ) → flag present (made.entries fresh j) ≡ false
  made_cleared j =
      let t' = other_than_fresh t p here in
      let e : made.entries fresh j ≡ 0 = ground (arith, made_entry fresh j, t') in
      rw e nothing_present

  made-nowhere : (is : List ℕ) → resolve made fresh is ≡ none
  made-nowhere [] = refl
  made-nowhere (j ∷ []) = rw (made_cleared j) refl
  made-nowhere (j ∷ k ∷ is) = rw (made_cleared j) refl

  -- Of the entries of the tables that were there, one alone has changed.
  made_elsewhere :
      (u j : ℕ) (q : List ℕ)
      → path u ≡ some q
      → made.entries u j ≡ (
          if u == t
          then (if j == i
              then or_flags passed_flags m (set_address fresh (s.entries t i))
              else s.entries u j)
          else s.entries u j)
  made_elsewhere u j q e = ground (arith, made_entry u j, other_than_fresh u q e)

  module _ (off : flag present (s.entries t i) ≡ false) where
    made-keeps :
        (u j : ℕ) (q : List ℕ)
        → path u ≡ some q
        → flag present (s.entries u j) ≡ true
        → made.entries u j ≡ s.entries u j
    made-keeps u j q e o = ground (arith, made_elsewhere u j q e, off, o)

    made-Compatible :
        (u j : ℕ) (q : List ℕ)
        → path u ≡ some q
        → length q < 3
        → Compatible made (s.entries u j) (made.entries u j)
    made-Compatible u j q e l = elim (Bool-cases (u == t)) [
      | inl y ↦ elim (Bool-cases (j == i)) [
        | inl z ↦
            let k : u ≡ t = ground arith in
            let k' : j ≡ i = ground arith in rw (k, k') (inr (off, rw made-leads made-nowhere))
        | inr z ↦
            let same : made.entries u j ≡ s.entries u j = ground (arith, made_elsewhere u j q e) in
            rw same (inl (refl, λ _. refl))
      ]
      | inr y ↦
          let same : made.entries u j ≡ s.entries u j = ground (arith, made_elsewhere u j q e) in
          rw same (inl (refl, λ _. refl))
    ]

    made-leaves :
        (u j : ℕ) (q : List ℕ) → path u ≡ some q → length q ≡ 3 → made.entries u j ≡ s.entries u j
    made-leaves u j q e l = elim (Bool-cases (u == t)) [
      | inl y ↦
          let k : u ≡ t = ground arith in
          let e' : path t ≡ some q = subst (λ (w : ℕ). path w ≡ some q) k e in
          let c : p ≡ q = cc in let l' : length p ≡ 3 = ap length c ∙ l in absurd (omega arith)
      | inr n' ↦ ground (arith, made_elsewhere u j q e)
    ]

    paths-extends : (u : ℕ) (q : List ℕ) → path u ≡ some q → paths u ≡ some q
    unfolding paths
    paths-extends u q e = ground (arith, other_than_fresh u q e)

    paths_fresh : paths fresh ≡ some (p ++ (i ∷ []))
    unfolding paths
    paths_fresh = ground arith

    made-child_old :
        (u j : ℕ) (q : List ℕ)
        → path u ≡ some q
        → length q < 3
        → flag present (made.entries u j) ≡ true
        → paths (entry_address (made.entries u j)) ≡ some (q ++ (j ∷ []))
    made-child_old u j q e l o = elim (Bool-cases ((u == t) && (j == i))) [
      | inl y ↦
          let k : u ≡ t = ground arith in
          let k' : j ≡ i = ground arith in
          let e' : path t ≡ some q = subst (λ (w : ℕ). path w ≡ some q) k e in
          let c : p ≡ q = cc in
          rw (k, k', made-leads) (paths_fresh ∙ ap (λ (r : List ℕ). some (r ++ (i ∷ []))) c)
      | inr n' ↦
          let same : made.entries u j ≡ s.entries u j = ground (arith, made_elsewhere u j q e) in
          let o' : flag present (s.entries u j) ≡ true = rw same at o in
          rw same (paths-extends _ _ (tree.child u j q e l o'))
    ]

    made-child :
        (u j : ℕ) (q : List ℕ)
        → paths u ≡ some q
        → length q < 3
        → flag present (made.entries u j) ≡ true
        → paths (entry_address (made.entries u j)) ≡ some (q ++ (j ∷ []))
    unfolding paths
    made-child u j q e l o = elim (Bool-cases (u == fresh)) [
      | inl y ↦
          let k : u ≡ fresh = ground arith in absurd (false≢true (sym (made_cleared j) ∙ rw k at o))
      | inr n' ↦ made-child_old u j q (rw n' at e) l o
    ]

    made-held :
        (u : ℕ) (q : List ℕ)
        → paths u ≡ some q
        → (u % page_size ≡ 0) × (locked (request_page s.physical).1 (u / page_size) ≡ true)
    unfolding paths
    made-held u q e =
        let only = ready.1.only (u / page_size) in
        elim (Bool-cases (u == fresh)) [
          | inl y ↦
              let k : u ≡ fresh = ground arith in
              (omega (arith, fresh_page), ground (arith, fresh_page, only))
          | inr n' ↦
              let (whole, held) = tree.held u q (rw n' at e) in (whole, ground (arith, only, held))
        ]

    made-IsTree : IsTree root paths made
    unfolding made write_entry clear_table
    made-IsTree = record {
      sound = Invariant.request_page-IsSound s.physical tree.sound;
      narrow = omega (arith, Invariant.total-request_page s.physical tree.sound, tree.narrow);
      rooted = paths-extends root [] tree.rooted;
      child = made-child;
      held = made-held;
    }

    made-Entered : Entered root t i p n path s (fresh, made)
    unfolding made write_entry clear_table paths
    made-Entered = record {
      path' = paths;
      tree = made-IsTree;
      there = ground arith;
      on = made-on;
      leads = made-leads;
      ready = ready.2;
      extends = paths-extends;
      keeps = λ u j q e o l. let same = made-keeps u j q e o in (rw same o, rw same refl);
      same = resolve_same root path s made tree made-Compatible made-leaves;
    }

  enter_on :
      flag present (s.entries t i) ≡ true → enter t i m s ≡ (entry_address (s.entries t i), flagged)
  unfolding enter present_entry flagged
  enter_on e = rw (enter, e, address-or_flags passed_flags m (s.entries t i)) refl

  enter_off : flag present (s.entries t i) ≡ false → enter t i m s ≡ (fresh, made)
  unfolding enter present_entry made fresh
  enter_off e =
      let a = address-or_flags passed_flags m (set_address fresh (s.entries t i)) in
      let small : fresh < 2 ^ 52 = omega (arith, fresh_page, ready.1.in_memory, tree.narrow) in
      let b = address-set_address fresh (s.entries t i) (omega (arith, fresh_page)) small in
      rw (enter, e, a, b) refl

  pub enter-Entered : Entered root t i p n path s (enter t i m s)
  enter-Entered = elim (Bool-cases (flag present (s.entries t i))) [
    | inl e ↦ subst (Entered root t i p n path s) (sym (enter_on e)) (flagged-Entered e)
    | inr e ↦ subst (Entered root t i p n path s) (sym (enter_off e)) (made-Entered e)
  ]
