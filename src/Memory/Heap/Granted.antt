-- ===== src/Memory/Heap/Granted.antt =====
-- Enough pages for an expansion of the heap, kernel/src/memory/heap.cpp: those that it maps and those
-- that the mapping takes for tables.
use lensor_os.Prelude.{
  ℕ, zero, suc, ◌+◌, ◌*◌, ◌/◌, ◌%◌, ◌≡◌, refl, Bool, true, false, Option, some, List, [], ◌∷◌,
  arith, ◌==◌, if◌then◌else◌, Bool-cases, inl, inr, ◌≤◌, ltb, subst,
}
use lensor_os.Prelude.Words.{add64, u64_mod}
use lensor_os.Memory.Physical.{Physical, page_size, request_page}
use lensor_os.Memory.Paging.{
  PageTables, pointer, page_map_indexer, flag, present, clear_table, present_entry, enter,
  write_entry, map, map_pages_rounds, map_pages,
}
use lensor_os.Memory.Heap.{
  Heap, heap_virtual_base, init_heap, expansion, heap_flags, map_in_all, map_active, map_rounds,
}

-- The next requests of a page, so many, are each granted one that is not at address 0.
unfoldable pub grants : ℕ → Physical → Bool
grants zero s = true
grants (suc k) s =
    let requested = request_page s in
    let rest = grants k requested.1 in if pointer requested.0 == 0 then false else rest

grants_next :
    (k : ℕ) (s : Physical)
    → grants (suc k) s ≡ true
    → (pointer (request_page s).0 == 0 ≡ false) × (grants k (request_page s).1 ≡ true)
unfolding grants
grants_next k s g = ground arith

pub grants_fewer : (k : ℕ) (s : Physical) → grants (suc k) s ≡ true → grants k s ≡ true
unfolding grants
grants_fewer zero s g = refl
grants_fewer (suc k) s g =
    let (some_page, rest) = grants_next (suc k) s g in
    let fewer = grants_fewer k (request_page s).1 rest in rw (grants, some_page) fewer

pub grants_below : (n k : ℕ) (s : Physical) → grants n s ≡ true → k ≤ n → grants k s ≡ true
grants_below zero k s g l = subst (λ m. grants m s ≡ true) (omega arith) g
grants_below (suc n) k s g l = elim (Bool-cases (k == suc n)) [
  | inl e ↦ let e' : suc n ≡ k = ground arith in subst (λ m. grants m s ≡ true) e' g
  | inr e ↦ grants_below n k s (grants_fewer n s g) (ground arith)
]

enter-grants :
    (k table index flags : ℕ) (s : PageTables)
    → grants (suc k) s.physical ≡ true
    → grants k (enter table index flags s).1.physical ≡ true
unfolding enter present_entry write_entry clear_table
enter-grants k table index flags s g = elim (Bool-cases (flag present (s.entries table index))) [
  | inl there ↦ rw there (grants_fewer k s.physical g)
  | inr absent ↦ rw absent (grants_next k s.physical g).1
]

-- `map` takes three tables at most.
map-grants :
    (k root virtual physical flags : ℕ) (s : PageTables)
    → grants (suc (suc (suc k))) s.physical ≡ true
    → grants k (map root virtual physical flags s).physical ≡ true
unfolding map write_entry
map-grants k root virtual physical flags s g =
    let ix = page_map_indexer virtual in
    let g1 = enter-grants (suc (suc k)) root ix.page_directory_pointer flags s g in
    let e1 = enter root ix.page_directory_pointer flags s in
    let g2 = enter-grants (suc k) e1.0 ix.page_directory flags e1.1 g1 in
    let e2 = enter e1.0 ix.page_directory flags e1.1 in
    let g3 = enter-grants k e2.0 ix.page_table flags e2.1 g2 in
    elim (Bool-cases (root == 0)) [
      | inl null_map ↦ rw null_map (
          grants_fewer k s.physical
            (grants_fewer (suc k) s.physical (grants_fewer (suc (suc k)) s.physical g)))
      | inr a_map ↦ rw a_map g3
    ]

map_pages-grants :
    (k root virtual physical flags : ℕ) (s : PageTables)
    → grants (suc (suc (suc k))) s.physical ≡ true
    → grants k (map_pages root virtual physical flags 1 s).physical ≡ true
unfolding map_pages map_pages_rounds
map_pages-grants k root virtual physical flags s g =
    let end = add64 virtual (1 * page_size % u64_mod) in
    elim (Bool-cases (ltb virtual end)) [
      | inl one ↦ rw one (map-grants k root virtual physical flags s g)
      | inr nothing ↦ rw nothing (
          grants_fewer k s.physical
            (grants_fewer (suc k) s.physical (grants_fewer (suc (suc k)) s.physical g)))
    ]

-- The requests that a mapping in some page maps makes at most.
abbrev pub table_pages : List ℕ → ℕ
table_pages [] = 0
table_pages (root ∷ roots) = 3 + table_pages roots

map_in_all-grants :
    (k : ℕ) (roots : List ℕ) (virtual physical : ℕ) (s : PageTables)
    → grants (table_pages roots + k) s.physical ≡ true
    → grants k (map_in_all roots virtual physical s).physical ≡ true
unfolding map_in_all
map_in_all-grants k [] virtual physical s g =
    subst (λ n. grants n s.physical ≡ true) (omega arith) g
map_in_all-grants k (root ∷ roots) virtual physical s g =
    map_in_all-grants k roots virtual physical _ (
      map_pages-grants (table_pages roots + k) root virtual physical heap_flags s
        (subst (λ n. grants n s.physical ≡ true) (omega arith) g))

-- The requests that a page of the heap makes at most: itself, and the tables in every page map.
abbrev pub page_requests : Heap → ℕ
page_requests h = 4 + table_pages h.page_maps

-- The pages are mapped, and nothing else than the tables changes; what is granted then is what is
-- left.
pub record Mapped (k : ℕ) (h : Heap) (o : Option Heap) : Type 0 where
  pub tables : PageTables
  pub mapped : o ≡ some (record h { tables = tables })
  pub left : grants k tables.physical ≡ true

pub map_rounds-Mapped :
    (n i base k : ℕ) (h : Heap)
    → grants (n * page_requests h + k) h.tables.physical ≡ true
    → Mapped k h (map_rounds n i base h)
unfolding map_rounds clear_table
map_rounds-Mapped zero i base k h g = record {
  tables = h.tables;
  mapped = refl;
  left = subst (λ m. grants m h.tables.physical ≡ true) (omega arith) g;
}
map_rounds-Mapped (suc n) i base k h g =
    let rest = n * page_requests h + k in
    let (some_page, g1) =
      grants_next (3 + table_pages h.page_maps + rest) h.tables.physical
        (subst (λ m. grants m h.tables.physical ≡ true) (omega arith) g) in
    let requested = request_page h.tables.physical in
    let page = pointer requested.0 in
    let cleared = clear_table page (record (h.tables) { physical = requested.1 }) in
    let virtual = add64 base (i * page_size) in
    let everywhere = map_in_all h.page_maps virtual page cleared in
    let g2 =
      map_in_all-grants (suc (suc (suc rest))) h.page_maps virtual page cleared
        (subst (λ m. grants m requested.1 ≡ true) (omega arith) g1) in
    let g3 = map-grants rest h.active virtual page heap_flags everywhere g2 in
    let later = map_rounds-Mapped n (i + 1) base k (map_active virtual page everywhere h) g3 in
    record {
      tables = later.tables;
      mapped = rw (map_rounds, some_page) later.mapped;
      left = later.left;
    }

-- The requests that an expansion makes at most.
abbrev pub expansion_requests : ℕ → Heap → ℕ
expansion_requests bytes h = expansion bytes / page_size * page_requests h

pub init_heap-grants :
    (k : ℕ) (h : Heap)
    → grants (suc (suc (suc (suc k)))) h.tables.physical ≡ true
    → grants k (init_heap h).tables.physical ≡ true
unfolding init_heap
init_heap-grants k h g =
    let requested = request_page h.tables.physical in
    map-grants k h.active heap_virtual_base (pointer requested.0) heap_flags
      (record (h.tables) { physical = requested.1 })
      (grants_next (suc (suc (suc k))) h.tables.physical g).1
