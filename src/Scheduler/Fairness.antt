-- ===== src/Scheduler/Fairness.antt =====
-- The switch goes to the next process that can run, round robin.
use lensor_os.Prelude.{
  ℕ, ◌≡◌, ◌≤◌, ◌<◌, ◌⊎◌, refl, Bool, true, false, ◌||◌, none, some, List, [], ◌∷◌, false≢true,
  arith, ◌==◌, length, All, Bool-cases, inl, inr, ◌∙◌, sym, subst,
}
use lensor_os.Process.{Process}
use lensor_os.Process.Table.{Table}
use lensor_os.Scheduler.{switch_process}
use lensor_os.Scheduler.Switch.{runs, runs-bound, turns, Next, switch_process-Next}

-- A node that can run all along, in queues that keep their number of nodes.
abbrev pub Ready : ℕ → ℕ → Table → Type 0
Ready n i q = (length q ≡ n) × (runs q i ≡ true)

-- The node that a switch goes to, with what a hang leaves taken to be the current one.
abbrev pub node_after : ℕ → Table → ℕ
node_after current q = elim (switch_process current q) [ none ↦ current | some j ↦ j ]

-- Whether the switches, one in each of the queues, come to the node.
abbrev pub comes_to : ℕ → ℕ → List Table → Bool
comes_to i current [] = false
comes_to i current (q ∷ qs) = (node_after current q == i) || comes_to i (node_after current q) qs

-- The node is the one wanted, or nearer to it.
abbrev pub Closer : ℕ → ℕ → ℕ → ℕ → Type 0
Closer n i current j = (j < n) × ((j ≡ i) ⊎ (turns n j i < turns n current i))

Next-Closer :
    (i current j : ℕ) (q : Table)
    → current < length q
    → runs q i ≡ true
    → Next q current j
    → Closer (length q) i current j
unfolding turns
Next-Closer i current j q h r next = elim (Bool-cases (j == i)) [
  | inl e ↦ (next.inside, inl (ground arith))
  | inr ne ↦ (next.inside, inr (ground (arith, next.nearest i r, runs-bound q i r, next.inside)))
]

-- One switch comes to the node or nearer to it.
nearer :
    (i current : ℕ) (q : Table)
    → 1 < length q
    → current < length q
    → runs q i ≡ true
    → Closer (length q) i current (node_after current q)
nearer i current q l h r = elim (switch_process-Next q current h l) [
  | inl (j, o, next) ↦
      subst (λ o'. Closer (length q) i current (elim o' [ none ↦ current | some k ↦ k ])) (sym o)
        (Next-Closer i current j q h r next)
  | inr (o, idle) ↦ absurd (false≢true (sym (idle i) ∙ r))
]

turns_positive : (n current i : ℕ) → i < n → current < n → 0 < turns n current i
unfolding turns
turns_positive n current i h l = ground arith

turns_at_most : (n current i : ℕ) → i < n → current < n → turns n current i ≤ n
unfolding turns
turns_at_most n current i h l = ground arith

comes_within :
    (n i current : ℕ) (qs : List Table)
    → 1 < n
    → i < n
    → current < n
    → All (Ready n i) qs
    → turns n current i ≤ length qs
    → comes_to i current qs ≡ true
comes_within n i current [] l li h r t = absurd (omega (arith, turns_positive n current i li h))
comes_within n i current (q ∷ qs) l li h r t =
    let closer : Closer n i current (node_after current q) =
      subst (λ m. Closer m i current (node_after current q)) r.0.0
        (nearer i current q (omega (arith, r.0.0)) (omega (arith, r.0.0)) r.0.1) in
    elim closer.1 [
      | inl e ↦ ground arith
      | inr d ↦
          let rest = comes_within n i (node_after current q) qs l li closer.0 r.1 (omega arith) in
          ground arith
    ]

-- However the other processes sleep and wake in between, a process that can run all along is
-- switched to within as many switches as the queue has nodes, if the queue keeps its number of
-- nodes, which is more than one.
pub comes_to-Ready :
    (n i current : ℕ) (qs : List Table)
    → 1 < n
    → i < n
    → current < n
    → All (Ready n i) qs
    → n ≤ length qs
    → comes_to i current qs ≡ true
comes_to-Ready n i current qs l li h r t =
    comes_within n i current qs l li h r (omega (arith, turns_at_most n current i li h))

-- In a queue of one process a switch stays there, though it sleeps.
pub switch_process_alone : (p : Process) → switch_process 0 (p ∷ []) ≡ some 0
unfolding switch_process
switch_process_alone p = refl
