-- ===== src/Scheduler/Waiting.antt =====
-- `sys$9_waitpid`, kernel/src/interrupts/syscalls.cpp, and how it meets the end of a process. The
-- number of the process that is scheduled stands for the process.
use lensor_os.Prelude.{
  ℕ, ◌%◌, ◌^◌, ◌≡◌, ◌≢◌, refl, ap, true, false, ◌++◌, Option, none, some, List, [], ◌∷◌, arith,
  if◌then◌else◌, ◌==◌, ◌∙◌, sym, subst,
}
use lensor_os.Event.Queue.{contains}
use lensor_os.Process.{Process, ZombieState, sleeping, unblock}
use lensor_os.Process.Table.{Table, process, modify, map_option, process-modify}
use lensor_os.Syscalls.Files.{Answer, returned, yielded, int_minus_one}
use lensor_os.Scheduler.{add_zombie, announce}
use lensor_os.Scheduler.Lifetime.{announce_lem}

-- `std::find_if` over the zombies: the status of the first with the number.
unfoldable pub find_zombie : ℕ → List ZombieState → Option ℕ
find_zombie pid [] = none
find_zombie pid (z ∷ zs) = if z.pid == pid then some z.return_status else find_zombie pid zs

-- `Zombies.erase(zombie)`, of that first one.
unfoldable pub erase_zombie : ℕ → List ZombieState → List ZombieState
erase_zombie pid [] = []
erase_zombie pid (z ∷ zs) = if z.pid == pid then zs else z ∷ erase_zombie pid zs

abbrev pub reap : ℕ → Process → Process
reap pid p = record p { zombies = erase_zombie pid p.zombies }

abbrev pub add_waiter : ℕ → Process → Process
add_waiter this p = record p { waiting_list = p.waiting_list ++ (this ∷ []) }

abbrev pub fall_asleep : Process → Process
fall_asleep p = record p { state = sleeping }

-- The zombies of the process that is scheduled.
abbrev pub zombies_of : ℕ → Table → List ZombieState
zombies_of this t = elim (process t this) [ none ↦ [] | some p ↦ p.zombies ]

unfoldable pub waitpid : ℕ → ℕ → Table → Answer × Table
waitpid this pid t = elim (find_zombie pid (zombies_of this t)) [
  | some status ↦ (returned (status % 2 ^ 32), modify this (reap pid) t)
  | none ↦ elim (process t pid) [
    | none ↦ (returned int_minus_one, t)
    | some _ ↦ (yielded, modify this fall_asleep (modify pid (add_waiter this) t))
  ]
]

find_zombie-append :
    (pid status : ℕ) (zs : List ZombieState)
    → find_zombie pid zs ≡ none
    → find_zombie pid (zs ++ (record { pid = pid; return_status = status } ∷ [])) ≡ some status
unfolding find_zombie
find_zombie-append pid status [] h = ground arith
find_zombie-append pid status (z ∷ zs) h = ground (arith, find_zombie-append pid status zs)

erase_zombie-append :
    (pid status : ℕ) (zs : List ZombieState)
    → find_zombie pid zs ≡ none
    → erase_zombie pid (zs ++ (record { pid = pid; return_status = status } ∷ [])) ≡ zs
unfolding find_zombie erase_zombie
erase_zombie-append pid status [] h = ground arith
erase_zombie-append pid status (z ∷ zs) h = ground (arith, erase_zombie-append pid status zs)

contains-snoc : (xs : List ℕ) (x : ℕ) → contains (xs ++ (x ∷ [])) x ≡ true
contains-snoc [] x = ground arith
contains-snoc (y ∷ xs) x = ground (arith, contains-snoc xs x)

zombies_found :
    (this : ℕ) (t : Table) (p : Process) → process t this ≡ some p → zombies_of this t ≡ p.zombies
zombies_found this t p h = ap (λ o. elim o [ none ↦ [] | some q ↦ q.zombies ]) h

block_equation :
    (this pid : ℕ) (c : Process) (t : Table)
    → find_zombie pid (zombies_of this t) ≡ none
    → process t pid ≡ some c
    → waitpid this pid t ≡ (yielded, modify this fall_asleep (modify pid (add_waiter this) t))
unfolding waitpid
block_equation this pid c t z k = ground arith

reap_equation :
    (this pid status : ℕ) (t : Table)
    → find_zombie pid (zombies_of this t) ≡ some status
    → waitpid this pid t ≡ (returned (status % 2 ^ 32), modify this (reap pid) t)
unfolding waitpid
reap_equation this pid status t z = ground arith

blocked :
    (this pid j : ℕ) (t : Table)
    → process (modify this fall_asleep (modify pid (add_waiter this) t)) j ≡ (
        let o = if pid == j then map_option (add_waiter this) (process t j) else process t j in
        if this == j then map_option fall_asleep o else o)
blocked this pid j t =
    process-modify this j fall_asleep (modify pid (add_waiter this) t) (λ q. refl)
    ∙ ap (λ o. if this == j then map_option fall_asleep o else o)
        (process-modify pid j (add_waiter this) t (λ q. refl))

-- What the caller and the other are, once the caller waits.
pub record Blocked (this pid : ℕ) (p c : Process) (t : Table) (r : Answer × Table) : Type 0 where
  pub answer : r.0 ≡ yielded
  pub caller : process r.1 this ≡ some (fall_asleep p)
  pub other : process r.1 pid ≡ some (add_waiter this c)
  pub rest : (j : ℕ) → j ≢ this → j ≢ pid → process r.1 j ≡ process t j

-- A process that waits for another, living one, which has left it no zombie, sleeps in the waiting
-- list of the other, and no third process changes.
pub waitpid-Blocked :
    (this pid : ℕ) (p c : Process) (t : Table)
    → this ≢ pid
    → process t this ≡ some p
    → process t pid ≡ some c
    → find_zombie pid p.zombies ≡ none
    → Blocked this pid p c t (waitpid this pid t)
waitpid-Blocked this pid p c t ne h k z =
    let z' = ap (find_zombie pid) (zombies_found this t p h) ∙ z in
    subst (Blocked this pid p c t) (sym (block_equation this pid c t z' k)) (record {
      answer = refl;
      caller = ground (arith, blocked this pid this t);
      other = ground (arith, blocked this pid pid t);
      rest = λ j a b. ground (arith, blocked this pid j t);
    })

-- Whatever has happened to the caller since, the end of the process that it waits for leaves it
-- running, with the status as the result of its call, and as its zombie when the caller is the
-- parent.
pub announce_wakes :
    (this status : ℕ) (c q : Process) (t : Table)
    → process t this ≡ some q
    → process (announce (add_waiter this c) status t) this
      ≡ some (
          unblock true status
            (if c.parent_process == this then add_zombie c.process_id status q else q))
announce_wakes this status c q t h =
    let w = contains-snoc c.waiting_list this in
    announce_lem (add_waiter this c) status t this ∙ ground arith

mine :
    (this j : ℕ) (p : Process) (f : Process → Process) (t : Table)
    → map_option f (process t this) ≡ some p
    → (if this == j then map_option f (process t j) else process t j)
      ≡ (if this == j then some p else process t j)
mine this j p f t h = ground arith

-- A parent that waits for a child after its end gets the status, and what it was before the end; no
-- other process changes.
pub waitpid-announce :
    (this status : ℕ) (p c : Process) (t : Table)
    → process t this ≡ some p
    → c.parent_process ≡ this
    → contains c.waiting_list this ≡ false
    → find_zombie c.process_id p.zombies ≡ none
    → let t' = announce c status t in
      let (answer, t'') = waitpid this c.process_id t' in
      (answer ≡ returned (status % 2 ^ 32))
      × ((j : ℕ) → process t'' j ≡ (if this == j then some p else process t' j))
waitpid-announce this status p c t h parent waits z =
    let t' = announce c status t in
    let zombie : process t' this ≡ some (add_zombie c.process_id status p) =
      announce_lem c status t this ∙ ground arith in
    let there : find_zombie c.process_id (zombies_of this t') ≡ some status =
      ap (find_zombie c.process_id) (zombies_found this t' _ zombie)
      ∙ find_zombie-append c.process_id status p.zombies z in
    let m = λ (j : ℕ). process-modify this j (reap c.process_id) t' (λ q. refl) in
    let gone = erase_zombie-append c.process_id status p.zombies z in
    let whole : some (reap c.process_id (add_zombie c.process_id status p)) ≡ some p =
      ap (λ zs. some (record p { zombies = zs })) gone in
    subst
      (λ r.
        (r.0 ≡ returned (status % 2 ^ 32))
        × ((j : ℕ) → process r.1 j ≡ (if this == j then some p else process t' j)))
      (sym (reap_equation this c.process_id status t' there))
      (
        refl,
        λ j.
            m j
            ∙ mine this j p (reap c.process_id) t'
                (ap (map_option (reap c.process_id)) zombie ∙ whole),
      )
