-- ===== src/Process/Table.antt =====
-- The process queue as a table: the lookup by number, and the waking of a list of processes.
use lensor_os.Prelude.{
  ℕ, ◌≡◌, refl, ap, Bool, true, Option, none, some, List, [], ◌∷◌, arith, if◌then◌else◌, ◌==◌,
}
use lensor_os.Event.Queue.{contains}
use lensor_os.Process.{Process, unblock}

abbrev pub Table : Type 0
Table = List Process

-- `Scheduler::process`: the first process of the queue with the number.
unfoldable pub process : Table → ℕ → Option Process
process [] pid = none
process (p ∷ ps) pid = if p.process_id == pid then some p else process ps pid

-- A change of the process that `process` finds; nothing if it finds none.
unfoldable pub modify : ℕ → (Process → Process) → Table → Table
modify pid f [] = []
modify pid f (p ∷ ps) = if p.process_id == pid then f p ∷ ps else p ∷ modify pid f ps

-- `for (pid : …) if (auto* process = Scheduler::process(pid)) process->unblock(true, value);`
unfoldable pub wake_all : List ℕ → ℕ → Table → Table
wake_all [] value t = t
wake_all (pid ∷ pids) value t = wake_all pids value (modify pid (unblock true value) t)

abbrev pub map_option {ℓ κ} : {A : Type ℓ} {B : Type κ} → (A → B) → Option A → Option B
map_option f none = none
map_option f (some a) = some (f a)

-- A change that keeps the number of the process.
abbrev pub KeepsId : (Process → Process) → Type 0
KeepsId f = (p : Process) → (f p).process_id ≡ p.process_id

pub process-modify :
    (pid j : ℕ) (f : Process → Process) (t : Table)
    → KeepsId f
    → process (modify pid f t) j ≡ (if pid == j then map_option f (process t j) else process t j)
unfolding process modify
process-modify pid j f [] keeps = ground arith
process-modify pid j f (p ∷ ps) keeps = ground (arith, keeps p, process-modify pid j f ps keeps)

pub unblock-KeepsId : (b : Bool) (v : ℕ) → KeepsId (unblock b v)
unfolding unblock
unblock-KeepsId b v p = ground arith

unblock_twice : (v : ℕ) (p : Process) → unblock true v (unblock true v p) ≡ unblock true v p
unfolding unblock
unblock_twice v p = refl

map_twice :
    (v : ℕ) (o : Option Process)
    → map_option (unblock true v) (map_option (unblock true v) o) ≡ map_option (unblock true v) o
map_twice v none = refl
map_twice v (some p) = ap some (unblock_twice v p)

-- Every process of the list that is alive runs afterwards with the value as its result; every other
-- process is as it was.
pub process-wake_all :
    (pids : List ℕ) (v j : ℕ) (t : Table)
    → process (wake_all pids v t) j
      ≡ (if contains pids j then map_option (unblock true v) (process t j) else process t j)
unfolding wake_all
process-wake_all [] v j t = refl
process-wake_all (pid ∷ pids) v j t = ground (
  arith,
  process-wake_all pids v j (modify pid (unblock true v) t),
  process-modify pid j (unblock true v) t (unblock-KeepsId true v),
  map_twice v (process t j),
)
