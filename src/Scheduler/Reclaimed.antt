-- ===== src/Scheduler/Reclaimed.antt =====
-- The pages of a process's regions, which `Process::destroy` of kernel/src/scheduler.cpp frees.
use lensor_os.Prelude.{
  ℕ, ◌+◌, ◌*◌, ◌/◌, ◌%◌, ◌≡◌, refl, ◌≤◌, Bool, false, ◌||◌, List, [], ◌∷◌, arith, if◌then◌else◌,
  subst, sym,
}
use lensor_os.Prelude.Words.{u64_mod}
use lensor_os.Memory.Physical.{Physical, page_size, free_pages}
use lensor_os.Memory.Physical.Locks.{
  locked, IsValid, in_run, locked-free_pages, free_pages-IsValid, size-free_pages,
}
use lensor_os.Process.{Region}
use lensor_os.Scheduler.{free_regions}

abbrev pub first_page : Region → ℕ
first_page r = r.paddr / page_size

-- The regions begin at pages and lie in a map of so many bytes.
abbrev pub Backed : ℕ → List Region → Type 0
Backed size [] = Unit
Backed size (r ∷ rs) =
    (r.paddr % page_size ≡ 0)
    × (first_page r + r.pages ≤ 8 * size)
    × ((first_page r + r.pages) * page_size ≤ u64_mod)
    × Backed size rs

-- The page belongs to one of the regions.
abbrev pub in_regions : List Region → ℕ → Bool
in_regions [] page = false
in_regions (r ∷ rs) page = in_run (first_page r) r.pages page || in_regions rs page

region_freed :
    (r : Region) (s : Physical) (page : ℕ)
    → IsValid s
    → r.paddr % page_size ≡ 0
    → first_page r + r.pages ≤ 8 * s.page_map.size
    → (first_page r + r.pages) * page_size ≤ u64_mod
    → locked (free_pages r.paddr r.pages s) page
      ≡ (if in_run (first_page r) r.pages page then false else locked s page)
region_freed r s page v whole inside below =
    let start : first_page r * page_size ≡ r.paddr = omega (arith, whole) in
    subst
      (λ a.
        locked (free_pages a r.pages s) page
        ≡ (if in_run (first_page r) r.pages page then false else locked s page))
      start (locked-free_pages s v (first_page r) r.pages inside below page)

pub locked-free_regions :
    (rs : List Region) (s : Physical) (page : ℕ)
    → IsValid s
    → Backed s.page_map.size rs
    → locked (free_regions rs s) page ≡ (if in_regions rs page then false else locked s page)
unfolding free_regions
locked-free_regions [] s page v b = refl
locked-free_regions (r ∷ rs) s page v (whole, inside, below, b) =
    let s' = free_pages r.paddr r.pages s in
    let here = region_freed r s page v whole inside below in
    let later =
      locked-free_regions rs s' page (free_pages-IsValid r.paddr r.pages s v)
        (subst (λ n. Backed n rs) (sym (size-free_pages r.paddr r.pages s)) b) in
    ground (arith, here, later)
