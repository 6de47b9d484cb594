-- ===== src/Memory/Paging/Tree.antt =====
-- The tables below a page map form a tree: each table has one path of indices from the root, and the
-- page that it takes is locked. What an address resolves to in it.
use lensor_os.Prelude.{
  ℕ, zero, suc, ◌+◌, ◌/◌, ◌%◌, ◌^◌, ◌≡◌, ◌∙◌, ◌⊎◌, inl, inr, refl, sym, ◌≤◌, ◌<◌, true, false,
  false≢true, Option, none, some, List, [], ◌∷◌, ◌++◌, arith, if◌then◌else◌, length, Bool-cases,
}
use lensor_os.Memory.Physical.{Physical, page_size, request_page}
use lensor_os.Memory.Physical.Locks.{locked}
use lensor_os.Memory.Physical.Hint.{Granted}
use lensor_os.Memory.Physical.Single.{request_page-Served}
use lensor_os.Memory.Physical.Invariant
use lensor_os.Memory.Paging.{PageTables, present, flag, entry_address}

abbrev pub Paths : Type 0
Paths = ℕ → Option (List ℕ)

-- The tables that the paths name hang from the root; an entry that is present leads to the table
-- whose path goes on by its index.
pub record IsTree (root : ℕ) (path : Paths) (s : PageTables) : Type 0 where
  pub sound : Invariant.IsSound s.physical
  pub narrow : s.physical.total_pages ≤ 2 ^ 40
  pub rooted : path root ≡ some []
  pub child :
      (t i : ℕ) (p : List ℕ)
      → path t ≡ some p
      → length p < 3
      → flag present (s.entries t i) ≡ true
      → path (entry_address (s.entries t i)) ≡ some (p ++ (i ∷ []))
  pub held :
      (t : ℕ) (p : List ℕ)
      → path t ≡ some p
      → (t % page_size ≡ 0) × (locked s.physical (t / page_size) ≡ true)

-- The entry that a list of indices leads to from a table, if every entry on the way is present.
abbrev pub resolve : PageTables → ℕ → List ℕ → Option ℕ
resolve s t [] = none
resolve s t (i ∷ []) = if flag present (s.entries t i) then some (s.entries t i) else none
resolve s t (i ∷ j ∷ is) =
    if flag present (s.entries t i)
    then resolve s (entry_address (s.entries t i)) (j ∷ is)
    else none

-- So many requests of a page in a row are granted.
abbrev pub Ready : ℕ → Physical → Type 0
Ready zero m = Unit
Ready (suc n) m =
    (page : ℕ) × Granted m page (request_page m).0 (request_page m).1 × Ready n (request_page m).1

pub Ready-less : (n : ℕ) (m : Physical) → Ready (suc n) m → Ready n m
Ready-less zero m r = tt
Ready-less (suc n) m (page, g, r) = (page, g, Ready-less n (request_page m).1 r)

-- A run of free pages is as many requests that are granted.
pub Ready-run :
    (n a : ℕ) (m : Physical)
    → Invariant.IsSound m
    → a + n ≤ m.total_pages
    → ((j : ℕ) → a ≤ j → j < a + n → locked m j ≡ false)
    → Ready n m
Ready-run zero a m v l free = tt
Ready-run (suc n) a m v l free = elim (request_page-Served m v.valid v.mapped v.fits v.hint) [
  | inl (page, g) ↦ (
    page,
    g,
    Ready-run n (a + 1) (request_page m).1 (Invariant.request_page-IsSound m v)
        (omega (arith, Invariant.total-request_page m v))
        (λ j from to. ground (
          arith,
          g.only j,
          g.lowest a,
          free a (omega arith) (omega arith),
          free j (omega arith) (omega arith),
        )),
  )
  | inr x ↦ absurd (false≢true (sym (free a (omega arith) (omega arith)) ∙ x.full a (omega arith)))
]

-- An entry of a table above the last level leads where it led, or to nothing instead of nowhere.
abbrev pub Compatible : PageTables → ℕ → ℕ → Type 0
Compatible s' e e' =
    ((flag present e' ≡ flag present e)
      × (flag present e ≡ true → entry_address e' ≡ entry_address e))
    ⊎ ((flag present e ≡ false) × ((is : List ℕ) → resolve s' (entry_address e') is ≡ none))

pub length_snoc : (p : List ℕ) (i : ℕ) → length (p ++ (i ∷ [])) ≡ length p + 1
length_snoc [] i = refl
length_snoc (x ∷ p) i = ground (arith, length_snoc p i)

-- Tables whose entries are compatible, and the same on the last level, resolve alike.
module _ (root : ℕ) (path : Paths) (s s' : PageTables) (tree : IsTree root path s)
    (inner : (t i : ℕ) (p : List ℕ)
      → path t ≡ some p
      → length p < 3
      → Compatible s' (s.entries t i) (s'.entries t i))
    (leaves : (t i : ℕ) (p : List ℕ)
      → path t ≡ some p
      → length p ≡ 3
      → s'.entries t i ≡ s.entries t i) where
  pub resolve_same :
      (t : ℕ) (p is : List ℕ)
      → path t ≡ some p
      → length p + length is ≡ 4
      → resolve s' t is ≡ resolve s t is
  resolve_same t p [] e l = refl
  resolve_same t p (i ∷ []) e l = let same = leaves t i p e (omega arith) in rw same refl
  resolve_same t p (i ∷ j ∷ is) e l = elim (Bool-cases (flag present (s.entries t i))) [
    | inl on ↦ elim (inner t i p e (omega arith)) [
      | inl (f, a) ↦
          let next = tree.child t i p e (omega arith) on in
          rw (f, on, a on)
            (resolve_same (entry_address (s.entries t i)) (p ++ (i ∷ [])) (j ∷ is) next
              (omega (arith, length_snoc p i)))
      | inr (off, _) ↦ absurd (false≢true (sym off ∙ on))
    ]
    | inr off ↦ elim (inner t i p e (omega arith)) [
      | inl (f, _) ↦ rw (f, off) refl
      | inr (_, nowhere) ↦ rw off (ground (arith, nowhere (j ∷ is)))
    ]
  ]
