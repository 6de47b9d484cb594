-- ===== src/Scheduler/Switch.antt =====
-- A switch goes to the next process that can run.
use lensor_os.Prelude.{
  ℕ, zero, suc, ◌+◌, ◌-◌, ◌≡◌, ◌≤◌, ◌<◌, ◌⊎◌, refl, ap, Bool, true, false, Option, none, some, [],
  ◌∷◌, arith, if◌then◌else◌, ◌==◌, ltb, length, drop, Bool-cases, Option-cases, inl, inr, ◌∙◌, sym,
  subst,
}
use lensor_os.Process.{Process}
use lensor_os.Process.Table.{Table}
use lensor_os.Scheduler.{
  is_running, first_running, yes, no, find_next_viable_process_after, next_viable_process,
  switch_process,
}

-- The node at an index is there and can run.
abbrev pub runs : Table → ℕ → Bool
runs [] i = false
runs (p ∷ ps) zero = is_running p
runs (p ∷ ps) (suc i) = runs ps i

runs-drop : (n i : ℕ) (q : Table) → runs (drop n q) i ≡ runs q (n + i)
runs-drop zero i q = ap (runs q) (omega arith)
runs-drop (suc n) i [] = refl
runs-drop (suc n) i (p ∷ ps) =
    let e : suc (n + i) ≡ suc n + i = omega arith in runs-drop n i ps ∙ ap (runs (p ∷ ps)) e

pub runs-bound : (q : Table) (i : ℕ) → runs q i ≡ true → i < length q
runs-bound [] i h = cc
runs-bound (p ∷ ps) zero h = omega arith
runs-bound (p ∷ ps) (suc i) h = omega (arith, runs-bound ps i h)

-- The first node of the rest that can run, with the index of the rest's head.
record FirstRunning (base : ℕ) (q : Table) (j : ℕ) : Type 0 where
  steps : ℕ
  place : j ≡ base + steps
  can : runs q steps ≡ true
  skipped : (i : ℕ) → i < steps → runs q i ≡ false

idle-cons :
    (p : Process) (ps : Table)
    → is_running p ≡ false
    → ((i : ℕ) → runs ps i ≡ false)
    → (i : ℕ) → runs (p ∷ ps) i ≡ false
idle-cons p ps h rest zero = h
idle-cons p ps h rest (suc i) = rest i

skipped-cons :
    (p : Process) (ps : Table) (n : ℕ)
    → is_running p ≡ false
    → ((i : ℕ) → i < n → runs ps i ≡ false)
    → (i : ℕ) → i < suc n
    → runs (p ∷ ps) i ≡ false
skipped-cons p ps n h rest zero l = h
skipped-cons p ps n h rest (suc i) l = rest i (omega arith)

first_running_lem :
    (base : ℕ) (q : Table)
    → ((first_running base q ≡ none) × ((i : ℕ) → runs q i ≡ false))
      ⊎ ((j : ℕ) × (first_running base q ≡ some j) × FirstRunning base q j)
unfolding first_running
first_running_lem base [] = inl (refl, λ i. refl)
first_running_lem base (p ∷ ps) = elim (Bool-cases (is_running p)) [
  | inl e ↦ inr (
    base,
    rw e refl,
    record { steps = 0; place = omega arith; can = e; skipped = λ i h. absurd (omega arith) },
  )
  | inr e ↦ elim (first_running_lem (base + 1) ps) [
    | inl (n, all) ↦ inl (rw e n, idle-cons p ps e all)
    | inr (j, o, r) ↦ inr (
      j,
      rw e o,
      record {
        steps = suc r.steps;
        place = omega (arith, r.place);
        can = r.can;
        skipped = skipped-cons p ps r.steps e r.skipped;
      },
    )
  ]
]

-- How many nodes on in the cyclic order of a queue of `n` nodes one node comes after another; a node
-- comes `n` after itself.
unfoldable pub turns : ℕ → ℕ → ℕ → ℕ
turns n current i = if ltb current i then i - current else i + n - current

-- What the scheduler goes to from a node: the node that can run which comes first after it.
pub record Next (q : Table) (current j : ℕ) : Type 0 where
  pub inside : j < length q
  pub can : runs q j ≡ true
  pub nearest : (i : ℕ) → runs q i ≡ true → turns (length q) current j ≤ turns (length q) current i

idle_beyond : (q : Table) (i : ℕ) → length q ≤ i → runs q i ≡ false
idle_beyond [] i h = refl
idle_beyond (p ∷ ps) zero h = absurd (omega arith)
idle_beyond (p ∷ ps) (suc i) h = idle_beyond ps i (omega arith)

from_drop :
    (q : Table) (n j : ℕ)
    → FirstRunning n (drop n q) j
    → (runs q j ≡ true) × (n ≤ j) × ((i : ℕ) → n ≤ i → i < j → runs q i ≡ false)
from_drop q n j r = (
  sym (runs-drop n r.steps q ∙ ap (runs q) (sym r.place)) ∙ r.can,
  omega (arith, r.place),
  λ i a b.
      let e : n + (i - n) ≡ i = omega arith in
      ap (runs q) (sym e)
      ∙ sym (runs-drop n (i - n) q)
      ∙ r.skipped (i - n) (omega (arith, r.place)),
)

idle_from :
    (q : Table) (n : ℕ) → ((i : ℕ) → runs (drop n q) i ≡ false) → (i : ℕ) → n ≤ i → runs q i ≡ false
idle_from q n all i a =
    let e : n + (i - n) ≡ i = omega arith in
    ap (runs q) (sym e) ∙ sym (runs-drop n (i - n) q) ∙ all (i - n)

after_lem :
    (q : Table) (current j : ℕ)
    → FirstRunning (current + 1) (drop (current + 1) q) j
    → Next q current j
unfolding turns
after_lem q current j r =
    let (can, beyond, skip) = from_drop q (current + 1) j r in
    record {
      inside = runs-bound q j can;
      can = can;
      nearest = λ i h. ground (arith, skip i, runs-bound q i h, runs-bound q j can);
    }

head_lem :
    (q : Table) (current j : ℕ)
    → ((i : ℕ) → current < i → runs q i ≡ false)
    → FirstRunning 0 q j
    → Next q current j
unfolding turns
head_lem q current j idle r =
    let (can, beyond, skip) = from_drop q 0 j r in
    record {
      inside = runs-bound q j can;
      can = can;
      nearest = λ i h. ground (arith, skip i, idle i, idle j, runs-bound q i h, runs-bound q j can);
    }

-- What a search for the next process comes to.
abbrev Found : Table → ℕ → Option ℕ → Type 0
Found q current o =
    ((j : ℕ) × (o ≡ some j) × Next q current j) ⊎ ((o ≡ none) × ((i : ℕ) → runs q i ≡ false))

from_head :
    (q : Table) (current : ℕ)
    → ((i : ℕ) → current < i → runs q i ≡ false)
    → Found q current (find_next_viable_process_after 0 yes q)
unfolding find_next_viable_process_after
from_head q current idle = elim (first_running_lem 0 q) [
  | inl none_runs ↦ inr none_runs
  | inr (j, o, r) ↦ inl (j, o, head_lem q current j idle r)
]

goes_around :
    (q : Table) (current : ℕ)
    → first_running (current + 1) (drop (current + 1) q) ≡ none
    → next_viable_process current no q ≡ find_next_viable_process_after 0 yes q
unfolding next_viable_process find_next_viable_process_after
goes_around q current n = ground arith

goes_on :
    (q : Table) (current j : ℕ)
    → first_running (current + 1) (drop (current + 1) q) ≡ some j
    → next_viable_process current no q ≡ some j
unfolding next_viable_process find_next_viable_process_after
goes_on q current j o = ground arith

around : (q : Table) (current : ℕ) → Found q current (next_viable_process current no q)
around q current = elim (first_running_lem (current + 1) (drop (current + 1) q)) [
  | inl (n, all) ↦
      subst (Found q current) (sym (goes_around q current n))
        (from_head q current (λ i l. idle_from q (current + 1) all i (omega arith)))
  | inr (j, o, r) ↦ inl (j, goes_on q current j o, after_lem q current j r)
]

at_head : (q : Table) → next_viable_process 0 yes q ≡ find_next_viable_process_after 0 yes q
unfolding next_viable_process find_next_viable_process_after
at_head q = elim (Option-cases (first_running 0 q)) [
  | inl n ↦ ground arith
  | inr (j, o) ↦ ground arith
]

switch_equation :
    (q : Table) (current : ℕ)
    → switch_process current q ≡ (
        if current + 1 == length q
        then (if current == 0 then some current else find_next_viable_process_after 0 yes q)
        else next_viable_process current no q)
unfolding switch_process
switch_equation q current =
    ap
      (λ o.
        if current + 1 == length q
        then (if current == 0 then some current else o)
        else next_viable_process current no q)
      (at_head q)

-- Where there is more than one node, a switch goes to the node that can run which comes first after
-- the current one in the cyclic order of the queue, the current one last; the kernel hangs exactly
-- when no process can run.
pub switch_process-Next :
    (q : Table) (current : ℕ)
    → current < length q
    → 1 < length q
    → ((j : ℕ) × (switch_process current q ≡ some j) × Next q current j)
      ⊎ ((switch_process current q ≡ none) × ((i : ℕ) → runs q i ≡ false))
switch_process-Next q current h l = elim (Bool-cases (current + 1 == length q)) [
  | inl e ↦
      let ne : (current == 0) ≡ false = ground arith in
      let s : switch_process current q ≡ find_next_viable_process_after 0 yes q =
        switch_equation q current ∙ rw (e, ne) refl in
      subst (Found q current) (sym s) (from_head q current (λ i b. idle_beyond q i (ground arith)))
  | inr e ↦
      let s : switch_process current q ≡ next_viable_process current no q =
        switch_equation q current ∙ rw e refl in
      subst (Found q current) (sym s) (around q current)
]
