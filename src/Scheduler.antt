-- ===== src/Scheduler.antt =====
-- The round-robin scheduler and the life of a process, kernel/src/scheduler.cpp. The queue is the list
-- of its values; a node is its index, and the current node that `remove_process` has deleted is
-- `none`. CPU and FPU registers and the flush of the page map at a switch are left out.
pub mod Switch
pub mod Fairness
pub mod Numbers
pub mod Reclaimed
pub mod Lifetime
pub mod Waiting
pub mod Fork
mod Examples
use lensor_os.Prelude.{
  ℕ, zero, suc, ◌+◌, ◌-◌, Bool, true, false, Option, none, some, List, [], ◌∷◌, ◌++◌, if◌then◌else◌,
  ◌==◌, ltb, length, drop,
}
use lensor_os.Prelude.Words.{add64}
use lensor_os.Memory.Physical.{Physical, free_pages}
use lensor_os.Process.{Process, ProcessState, running, sleeping, Region, ZombieState}
use lensor_os.Process.Table.{Table, process, modify, wake_all}
use lensor_os.Containers.SparseVector
use lensor_os.Storage.VirtualFilesystem
use lensor_os.Storage.VirtualFilesystem.{Vfs, Change}

abbrev pub is_running : Process → Bool
is_running p = elim p.state [ running ↦ true | sleeping ↦ false ]

-- The loop of `find_next_viable_process_after`, over the nodes of which the first has the index.
unfoldable pub first_running : ℕ → Table → Option ℕ
first_running i [] = none
first_running i (p ∷ ps) =
    let rest = first_running (i + 1) ps in if is_running p then some i else rest

pub data IncludeGivenProcess : Type 0 where
  yes : IncludeGivenProcess
  no : IncludeGivenProcess

unfoldable pub find_next_viable_process_after : ℕ → IncludeGivenProcess → Table → Option ℕ
find_next_viable_process_after start yes queue = first_running start (drop start queue)
find_next_viable_process_after start no queue = first_running (start + 1) (drop (start + 1) queue)

-- `next_viable_process`; at `none` the kernel hangs.
unfoldable pub next_viable_process : ℕ → IncludeGivenProcess → Table → Option ℕ
unfolding find_next_viable_process_after
next_viable_process start include queue =
    elim (find_next_viable_process_after start include queue) [
      | none ↦ find_next_viable_process_after 0 yes queue
      | some i ↦ some i
    ]

-- `switch_process_impl`: the node that is current next.
unfoldable pub switch_process : ℕ → Table → Option ℕ
unfolding next_viable_process
switch_process current queue =
    if current + 1 == length queue
    then (if current == 0 then some current else next_viable_process 0 yes queue)
    else next_viable_process current no queue

-- What a process's end reaches. `closed` are the metadata whose drivers have been told to close; what
-- the drivers do then is not part of this state.
pub record Kernel : Type 0 where
  pub the_pid : ℕ
  pub queue : Table
  pub current : Option ℕ
  pub physical : Physical
  pub vfs : Vfs
  pub closed : List ℕ
  pub page_maps_to_free : List ℕ
  pub init_process : Option ℕ

unfoldable pub request_pid : Kernel → ℕ × Kernel
request_pid k = let pid = add64 k.the_pid 1 in (pid, record k { the_pid = pid })

unfoldable pub add_process : Process → Kernel → ℕ × Kernel
add_process p k =
    let (pid, k') = request_pid k in
    (pid, record k' { queue = k'.queue ++ (record p { process_id = pid } ∷ []) })

-- `parent->Zombies.push_back`
abbrev pub add_zombie : ℕ → ℕ → Process → Process
add_zombie pid status p = record p {
  zombies = p.zombies ++ (record { pid = pid; return_status = status } ∷ []);
}

unfoldable pub free_regions : List Region → Physical → Physical
free_regions [] m = m
free_regions (r ∷ rs) m = free_regions rs (free_pages r.paddr r.pages m)

-- The loop that closes what the process has left open.
unfoldable pub close_all : List (ℕ × ℕ) → Vfs → Process → List ℕ → Option (Vfs × Process × List ℕ)
close_all [] v p closed = some (v, p, closed)
close_all ((procfd, fd) ∷ rest) v p closed = elim (VirtualFilesystem.close procfd v p) [
  | none ↦ none
  | some (_, c) ↦ close_all rest c.vfs c.process (closed ++ c.destroyed)
]

-- The part of `Process::destroy` that reaches other processes: the parent's zombie, then the waiters.
unfoldable pub announce : Process → ℕ → Table → Table
announce p status t =
    wake_all p.waiting_list status (modify p.parent_process (add_zombie p.process_id status) t)

-- The system forgets its init process when that is the one destroyed.
unfoldable pub forget_init : ℕ → Option ℕ → Option ℕ
forget_init pid none = none
forget_init pid (some init) = if init == pid then none else some init

-- `Process::destroy`
unfoldable pub destroy : Process → ℕ → Kernel → Option Kernel
destroy p status k =
    let p' : Process = record p { memories = [] } in
    elim (close_all (SparseVector.pairs p.file_descriptors) k.vfs p' k.closed) [
      | none ↦ none
      | some (v, _, closed) ↦ some (record k {
        queue = announce p status k.queue;
        physical = free_regions p.memories k.physical;
        vfs = v;
        closed = closed;
        page_maps_to_free = k.page_maps_to_free ++ (p.cr3 ∷ []);
        init_process = forget_init p.process_id k.init_process;
      })
    ]

-- The search of `remove_process`: the index of the first process with the number, and the process.
unfoldable pub find_process : ℕ → ℕ → Table → Option (ℕ × Process)
find_process i pid [] = none
find_process i pid (p ∷ ps) =
    if p.process_id == pid then some (i, p) else find_process (i + 1) pid ps

-- `SinglyLinkedList::remove`
unfoldable pub remove_at : ℕ → Table → Table
remove_at i [] = []
remove_at zero (p ∷ ps) = ps
remove_at (suc i) (p ∷ ps) = p ∷ remove_at i ps

-- The node that is current, after the removal of the node at an index.
unfoldable pub node_after_removal : ℕ → Option ℕ → Option ℕ
node_after_removal i none = none
node_after_removal i (some c) = if c == i then none else if ltb i c then some (c - 1) else some c

unfoldable pub remove_process : ℕ → ℕ → Kernel → Option (Bool × Kernel)
remove_process pid status k = elim (find_process 0 pid k.queue) [
  | none ↦ some (false, k)
  | some (i, p) ↦
      let k' : Kernel = record k {
        queue = remove_at i k.queue;
        current = node_after_removal i k.current;
      } in
      elim (destroy (record p { state = sleeping }) status k') [
        | none ↦ none
        | some k'' ↦ some (true, k'')
      ]
]

-- `yield`, from the current node; a deleted one is followed all the same, with no result here.
unfoldable pub yield : Kernel → Option Kernel
unfolding switch_process
yield k = elim k.current [
  | none ↦ none
  | some c ↦ elim (switch_process c k.queue) [
    | none ↦ none
    | some j ↦ some (record k { current = some j })
  ]
]
