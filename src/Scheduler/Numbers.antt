-- ===== src/Scheduler/Numbers.antt =====
-- The number of a process is its own, and leads to it in the queue.
use lensor_os.Prelude.{
  ℕ, suc, ◌+◌, ◌≡◌, ◌≤◌, ◌<◌, refl, ◌++◌, none, some, [], ◌∷◌, arith, if◌then◌else◌, ◌==◌, All,
  Bool-cases, inl, inr,
}
use lensor_os.Prelude.Words.{add64, u64_mod}
use lensor_os.Process.{Process}
use lensor_os.Process.Table.{Table, process, KeepsId}
use lensor_os.Scheduler.{Kernel, request_pid, add_process, add_zombie, find_process, remove_at}

-- No two processes have the same number.
abbrev pub DistinctIds : Table → Type 0
DistinctIds [] = Unit
DistinctIds (p ∷ ps) = (process ps p.process_id ≡ none) × DistinctIds ps

-- No process has a number beyond the last that was handed out.
abbrev pub IdsBelow : ℕ → Table → Type 0
IdsBelow n = All (λ p. p.process_id ≤ n)

process-append :
    (t : Table) (p : Process) (j : ℕ)
    → process t p.process_id ≡ none
    → process (t ++ (p ∷ [])) j ≡ (if p.process_id == j then some p else process t j)
unfolding process
process-append [] p j h = refl
process-append (q ∷ t) p j h = ground (arith, process-append t p j)

process_above : (n j : ℕ) (t : Table) → IdsBelow n t → n < j → process t j ≡ none
unfolding process
process_above n j [] h l = refl
process_above n j (p ∷ t) h l = ground (arith, h.0, process_above n j t h.1 l)

DistinctIds-append :
    (n : ℕ) (t : Table) (p : Process)
    → IdsBelow n t
    → n < p.process_id
    → DistinctIds t
    → DistinctIds (t ++ (p ∷ []))
unfolding process
DistinctIds-append n [] p b l d = (refl, tt)
DistinctIds-append n (q ∷ t) p b l d =
    let fresh = process_above n p.process_id t b.1 l in
    let e = process-append t p q.process_id fresh in
    (ground (arith, e, d.0, b.0), DistinctIds-append n t p b.1 l d.1)

IdsBelow-append :
    (n m : ℕ) (t : Table) (p : Process)
    → n ≤ m
    → IdsBelow n t
    → p.process_id ≤ m
    → IdsBelow m (t ++ (p ∷ []))
IdsBelow-append n m [] p l b h = (h, tt)
IdsBelow-append n m (q ∷ t) p l b h = (omega (arith, b.0), IdsBelow-append n m t p l b.1 h)

-- The numbers of the processes are distinct, and the counter has passed them all.
pub record HasIds (k : Kernel) : Type 0 where
  pub distinct : DistinctIds k.queue
  pub below : IdsBelow k.the_pid k.queue

-- Until the counter wraps, a process that is added gets a number that no process has; the number
-- leads to it, every other number leads where it led, and the numbers stay distinct.
pub add_process-HasIds :
    (p : Process) (k : Kernel)
    → HasIds k
    → k.the_pid + 1 < u64_mod
    → let (pid, k') = add_process p k in
      (process k.queue pid ≡ none)
      × ((j : ℕ)
          → process k'.queue j
            ≡ (if pid == j then some (record p { process_id = pid }) else process k.queue j))
      × HasIds k'
unfolding add_process request_pid
add_process-HasIds p k h l =
    let pid = add64 k.the_pid 1 in
    let next : pid ≡ k.the_pid + 1 = omega arith in
    let fresh = process_above k.the_pid pid k.queue h.below (omega arith) in
    (
      fresh,
      (λ j. process-append k.queue (record p { process_id = pid }) j fresh),
      record {
        distinct =
            DistinctIds-append k.the_pid k.queue (record p { process_id = pid }) h.below
              (omega arith) h.distinct;
        below =
            IdsBelow-append k.the_pid pid k.queue (record p { process_id = pid }) (omega arith)
              h.below (omega arith);
      },
    )

-- The search of `remove_process`, and what the removal leaves.
pub record Removed (q : Table) (pid base : ℕ) (p : Process) : Type 0 where
  pub index : ℕ
  pub finds : find_process base pid q ≡ some (base + index, p)
  pub leaves : (j : ℕ) → process (remove_at index q) j ≡ (if pid == j then none else process q j)

process_id_of : (q : Table) (pid : ℕ) (p : Process) → process q pid ≡ some p → p.process_id ≡ pid
unfolding process
process_id_of [] pid p h = cc
process_id_of (r ∷ q) pid p h = ground (arith, process_id_of q pid p)

pub find_lem :
    (q : Table) (pid base : ℕ) (p : Process)
    → DistinctIds q
    → process q pid ≡ some p
    → Removed q pid base p
unfolding process find_process remove_at
find_lem [] pid base p d h = cc
find_lem (r ∷ q) pid base p d h = elim (Bool-cases (r.process_id == pid)) [
  | inl e ↦ record { index = 0; finds = ground arith; leaves = λ j. ground (arith, d.0) }
  | inr e ↦
      let ih = find_lem q pid (base + 1) p d.1 (ground arith) in
      record {
        index = suc ih.index;
        finds = ground (arith, ih.finds);
        leaves = λ j. ground (arith, ih.leaves j);
      }
]

pub add_zombie-KeepsId : (pid status : ℕ) → KeepsId (add_zombie pid status)
add_zombie-KeepsId pid status p = refl
