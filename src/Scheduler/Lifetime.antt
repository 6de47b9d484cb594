-- ===== src/Scheduler/Lifetime.antt =====
-- The number of a process is its own, and what its end leaves for the others.
use lensor_os.Prelude.{
  ℕ, ◌≡◌, refl, ap, Bool, true, false, ◌++◌, Option, none, some, List, [], ◌∷◌, arith,
  if◌then◌else◌, ◌==◌, inl, inr, ◌∙◌, sym, subst,
}
use lensor_os.Event.Queue.{contains}
use lensor_os.Memory.Physical.Locks
use lensor_os.Memory.Physical.Locks.{locked}
use lensor_os.Scheduler.Reclaimed.{Backed, in_regions, locked-free_regions}
use lensor_os.Process.{Process, sleeping, unblock}
use lensor_os.Process.Table.{Table, process, modify, map_option, process-modify, process-wake_all}
use lensor_os.Containers.SparseVector
use lensor_os.Storage.VirtualFilesystem
use lensor_os.Storage.VirtualFilesystem.{Vfs, Change, procfd_to_fd, file_of}
use lensor_os.Storage.VirtualFilesystem.Tables.{IsSound}
use lensor_os.Storage.VirtualFilesystem.Closing.{close-IsSound}
use lensor_os.Scheduler.{
  Kernel, add_zombie, free_regions, close_all, announce, destroy, forget_init, find_process,
  remove_at, node_after_removal, remove_process, yield,
}
use lensor_os.Scheduler.Numbers.{DistinctIds, find_lem, add_zombie-KeepsId}

-- What a process is after the end of the process `p` with a status: its parent has got a zombie of
-- it, and every process that waited for it runs with the status as its result.
abbrev pub after_end : Process → ℕ → ℕ → Option Process → Option Process
after_end p status j o =
    let o' = if p.parent_process == j then map_option (add_zombie p.process_id status) o else o in
    if contains p.waiting_list j then map_option (unblock true status) o' else o'

pub announce_lem :
    (p : Process) (status : ℕ) (t : Table) (j : ℕ)
    → process (announce p status t) j ≡ after_end p status j (process t j)
unfolding announce
announce_lem p status t j =
    let e =
      process-modify p.parent_process j (add_zombie p.process_id status) t
        (add_zombie-KeepsId p.process_id status) in
    process-wake_all p.waiting_list status j
      (modify p.parent_process (add_zombie p.process_id status) t)
    ∙ ap (λ o. if contains p.waiting_list j then map_option (unblock true status) o else o) e

-- The loop that closes what is left open comes to an end without a fault, in a sound state.
record ClosesAll (ds : List (ℕ × ℕ)) (v : Vfs) (p : Process) (closed : List ℕ) : Type 0 where
  vfs : Vfs
  process : Process
  told : List ℕ
  runs : close_all ds v p closed ≡ some (vfs, process, told)
  sound : IsSound vfs process

close_all_step :
    (procfd fd : ℕ) (ds : List (ℕ × ℕ)) (v : Vfs) (p : Process) (closed : List ℕ) (b : Bool)
    (c : Change)
    → VirtualFilesystem.close procfd v p ≡ some (b, c)
    → close_all ((procfd, fd) ∷ ds) v p closed
      ≡ close_all ds c.vfs c.process (closed ++ c.destroyed)
unfolding close_all
close_all_step procfd fd ds v p closed b c e = ground arith

ClosesAll-step :
    (procfd fd : ℕ) (ds : List (ℕ × ℕ)) (v : Vfs) (p : Process) (closed : List ℕ) (b : Bool)
    (c : Change)
    → VirtualFilesystem.close procfd v p ≡ some (b, c)
    → ClosesAll ds c.vfs c.process (closed ++ c.destroyed)
    → ClosesAll ((procfd, fd) ∷ ds) v p closed
ClosesAll-step procfd fd ds v p closed b c e r = record {
  vfs = r.vfs;
  process = r.process;
  told = r.told;
  runs = close_all_step procfd fd ds v p closed b c e ∙ r.runs;
  sound = r.sound;
}

close_all_lem :
    (ds : List (ℕ × ℕ)) (v : Vfs) (p : Process) (closed : List ℕ)
    → IsSound v p
    → ClosesAll ds v p closed
unfolding close_all
close_all_lem [] v p closed s = record {
  vfs = v;
  process = p;
  told = closed;
  runs = refl;
  sound = s;
}
close_all_lem ((procfd, fd) ∷ ds) v p closed s = elim (close-IsSound v p procfd s) [
  | inl (f, o, c, e, means) ↦
      ClosesAll-step procfd fd ds v p closed true c e
        (close_all_lem ds c.vfs c.process _ means.sound)
  | inr (n, e) ↦ ClosesAll-step procfd fd ds v p closed false _ e (close_all_lem ds v p _ s)
]

pub IsSound-fields :
    (v : Vfs) (p p' : Process)
    → p'.file_descriptors ≡ p.file_descriptors
    → IsSound v p
    → IsSound v p'
unfolding procfd_to_fd
IsSound-fields v p p' e s = record {
  files = s.files;
  descriptors = subst SparseVector.Invariant.IsValid (sym e) s.descriptors;
  opens = λ i fd h. s.opens i fd (ap (λ d. SparseVector.at d i) (sym e) ∙ h);
  unshared = λ i j fd h h'.
      s.unshared i j fd (ap (λ d. SparseVector.at d i) (sym e) ∙ h)
        (ap (λ d. SparseVector.at d j) (sym e) ∙ h');
}

-- What `remove_process` leaves of the kernel when it destroys the process `p`.
pub record Ended (k : Kernel) (pid status : ℕ) (p : Process) (k' : Kernel) : Type 0 where
  pub others :
      (j : ℕ)
      → process k'.queue j ≡ (if pid == j then none else after_end p status j (process k.queue j))
  pub memory : k'.physical ≡ free_regions p.memories k.physical
  pub page_maps : k'.page_maps_to_free ≡ k.page_maps_to_free ++ (p.cr3 ∷ [])
  pub index : ℕ
  pub position : find_process 0 pid k.queue ≡ some (index, p)
  pub current : k'.current ≡ node_after_removal index k.current

after_end-none : (p : Process) (status j : ℕ) → after_end p status j none ≡ none
after_end-none p status j = ground arith

after_end-if :
    (b : Bool) (p : Process) (status j : ℕ) (o : Option Process)
    → after_end p status j (if b then none else o) ≡ (if b then none else after_end p status j o)
after_end-if true p status j o = after_end-none p status j
after_end-if false p status j o = refl

index_of :
    {i j : ℕ} {p q : Process} {o : Option (ℕ × Process)} → o ≡ some (i, p) → o ≡ some (j, q) → i ≡ j
index_of e f = cc

-- The process as `remove_process` hands it to `destroy`.
abbrev asleep : Process → Process
asleep p = record p { state = sleeping }

abbrev unlinked : ℕ → Kernel → Kernel
unlinked i k = record k { queue = remove_at i k.queue; current = node_after_removal i k.current }

remove_equation :
    (k : Kernel) (pid status i : ℕ) (p : Process) (k' : Kernel)
    → find_process 0 pid k.queue ≡ some (i, p)
    → destroy (asleep p) status (unlinked i k) ≡ some k'
    → remove_process pid status k ≡ some (true, k')
unfolding remove_process
remove_equation k pid status i p k' e d = ground arith

-- The kernel that `destroy` leaves, with what its last loop leaves.
abbrev end_of : Process → ℕ → Kernel → Vfs → List ℕ → Kernel
end_of p status k v closed = record k {
  queue = announce p status k.queue;
  physical = free_regions p.memories k.physical;
  vfs = v;
  closed = closed;
  page_maps_to_free = k.page_maps_to_free ++ (p.cr3 ∷ []);
  init_process = forget_init p.process_id k.init_process;
}

destroy_equation :
    (p q : Process) (status : ℕ) (k : Kernel) (v : Vfs) (closed : List ℕ)
    → close_all (SparseVector.pairs p.file_descriptors) k.vfs (record p { memories = [] }) k.closed
      ≡ some (v, q, closed)
    → destroy p status k ≡ some (end_of p status k v closed)
unfolding destroy
destroy_equation p q status k v closed e = ground arith

destroyed :
    (p : Process) (status : ℕ) (k : Kernel)
    → IsSound k.vfs p
    → (v : Vfs) × (closed : List ℕ) × (destroy p status k ≡ some (end_of p status k v closed))
destroyed p status k s =
    let s' = IsSound-fields k.vfs p (record p { memories = [] }) refl s in
    let c =
      close_all_lem (SparseVector.pairs p.file_descriptors) k.vfs (record p { memories = [] })
        k.closed s' in
    (c.vfs, c.told, destroy_equation p c.process status k c.vfs c.told c.runs)

removed :
    (k : Kernel) (pid status : ℕ) (p : Process)
    → DistinctIds k.queue
    → process k.queue pid ≡ some p
    → IsSound k.vfs p
    → (k' : Kernel) × (remove_process pid status k ≡ some (true, k')) × Ended k pid status p k'
removed k pid status p d h s =
    let r = find_lem k.queue pid 0 p d h in
    let at_index : find_process 0 pid k.queue ≡ some (r.index, p) =
      r.finds ∙ ap (λ n. some (n, p)) (omega arith) in
    let (v, closed, done) =
      destroyed (asleep p) status (unlinked r.index k) (IsSound-fields k.vfs p (asleep p) refl s) in
    (
      end_of (asleep p) status (unlinked r.index k) v closed,
      remove_equation k pid status r.index p _ at_index done,
      record {
        others = λ j.
            announce_lem (asleep p) status (remove_at r.index k.queue) j
            ∙ ap (after_end p status j) (r.leaves j)
            ∙ after_end-if (pid == j) p status j (process k.queue j);
        memory = refl;
        page_maps = refl;
        index = r.index;
        position = at_index;
        current = refl;
      },
    )

-- When the numbers are distinct, the descriptors of a living process are sound and its regions are
-- whole pages of a valid map, its removal succeeds: the number leads nowhere, every other number
-- leads to what was there, with the zombie at the parent and the waiters woken by the status, its page
-- map is listed to be freed, the pages of its regions are free, and every other page is as it was.
-- What the drivers of files that it has left open do when they are told to close is not part of the
-- state.
pub remove_process-Ended :
    (k : Kernel) (pid status : ℕ) (p : Process)
    → DistinctIds k.queue
    → process k.queue pid ≡ some p
    → IsSound k.vfs p
    → Locks.IsValid k.physical
    → Backed k.physical.page_map.size p.memories
    → (k' : Kernel) × (remove_process pid status k ≡ some (true, k'))
      × Ended k pid status p k'
      × ((page : ℕ)
          → locked k'.physical page
            ≡ (if in_regions p.memories page then false else locked k.physical page))
remove_process-Ended k pid status p d h s v b =
    let (k', done, ended) = removed k pid status p d h s in
    (
      k',
      done,
      ended,
      λ page.
          ap (λ m. locked m page) ended.memory ∙ locked-free_regions p.memories k.physical page v b,
    )

yield_nowhere : (k : Kernel) → k.current ≡ none → yield k ≡ none
unfolding yield
yield_nowhere k e = ground arith

-- A process that ends itself is the current one, and the yield that follows starts from the node
-- that has been deleted.
pub yield-remove_process :
    (k : Kernel) (pid status i : ℕ) (p : Process)
    → DistinctIds k.queue
    → find_process 0 pid k.queue ≡ some (i, p)
    → process k.queue pid ≡ some p
    → IsSound k.vfs p
    → k.current ≡ some i
    → (k' : Kernel) × (remove_process pid status k ≡ some (true, k')) × (yield k' ≡ none)
unfolding node_after_removal
yield-remove_process k pid status i p d f h s c =
    let (k', done, ended) = removed k pid status p d h s in
    let gone : k'.current ≡ none =
      ended.current
      ∙ ap (λ n. node_after_removal n k.current) (index_of ended.position f)
      ∙ ap (node_after_removal i) c
      ∙ ground arith in
    (k', done, yield_nowhere k' gone)
