-- ===== src/Syscalls/Sockets/Alive.antt =====
-- A process that is alive stays so when others are notified and woken.
use lensor_os.Prelude.{
  ℕ, ◌≡◌, ◌⊎◌, refl, ap, Bool, true, false, Option, some, List, arith, if◌then◌else◌, ◌==◌, ◌∙◌,
  sym, subst, Bool-cases, Option-cases, inl, inr, leb,
}
use lensor_os.Prelude.Words.{minus_two}
use lensor_os.Event.EventType
use lensor_os.Event.Queue.{Event, Listeners, EventQueue}
use lensor_os.Process.{Process, unblock, set_return_value}
use lensor_os.Containers.SparseVector.{SparseVector}
use lensor_os.Process.Table.{
  Table, process, modify, map_option, KeepsId, process-modify, unblock-KeepsId,
}
use lensor_os.Process.Notify.{notify, push_listening, with_queues}

-- The number leads to a process.
abbrev pub Alive : Table → ℕ → Type 0
Alive t j = (p : Process) × (process t j ≡ some p)

-- The number leads to a process with these descriptors.
abbrev pub Holds : SparseVector ℕ → Table → ℕ → Type 0
Holds ds t j = (p : Process) × (process t j ≡ some p) × (p.file_descriptors ≡ ds)

abbrev pub KeepsDescriptors : (Process → Process) → Type 0
KeepsDescriptors f = (p : Process) → (f p).file_descriptors ≡ p.file_descriptors

Holds-if :
    (b : Bool) (f : Process → Process) (p : Process) (o : Option Process)
    → KeepsDescriptors f
    → o ≡ (if b then map_option f (some p) else some p)
    → (q : Process) × (o ≡ some q) × (q.file_descriptors ≡ p.file_descriptors)
Holds-if true f p o k e = (f p, e, k p)
Holds-if false f p o k e = (p, e, refl)

Holds-modify :
    (ds : SparseVector ℕ) (t : Table) (pid j : ℕ) (f : Process → Process)
    → KeepsId f
    → KeepsDescriptors f
    → Holds ds t j
    → Holds ds (modify pid f t) j
Holds-modify ds t pid j f keeps same (p, h, d) =
    let (q, e, d') =
      Holds-if (pid == j) f p _ same
        (process-modify pid j f t keeps ∙ ap (λ o. if pid == j then map_option f o else o) h) in
    (q, e, d' ∙ d)

notify_table :
    (event : Event) (pid : ℕ) (m : Listeners) (t : Table)
    → ((notify event pid m t).1 ≡ t)
      ⊎ ((qs : List EventQueue) × ((notify event pid m t).1 ≡ modify pid (with_queues qs) t))
unfolding notify
notify_table event pid m t = elim (Option-cases (process t pid)) [
  | inl n ↦ inl (ground arith)
  | inr (p, h) ↦ elim (Bool-cases (leb EventType.count event.kind)) [
    | inl e ↦ inl (ground arith)
    | inr e ↦ inr ((push_listening event p.event_queues).1, ground arith)
  ]
]

pub Holds-notify :
    (ds : SparseVector ℕ) (event : Event) (pid j : ℕ) (m : Listeners) (t : Table)
    → Holds ds t j
    → Holds ds (notify event pid m t).1 j
Holds-notify ds event pid j m t a = elim (notify_table event pid m t) [
  | inl e ↦ subst (λ t'. Holds ds t' j) (sym e) a
  | inr (qs, e) ↦
      subst (λ t'. Holds ds t' j) (sym e)
        (Holds-modify ds t pid j (with_queues qs) (λ q. refl) (λ q. refl) a)
]

set_return_value-KeepsDescriptors : (v : ℕ) → KeepsDescriptors (set_return_value v)
unfolding set_return_value
set_return_value-KeepsDescriptors v p = refl

unblock-KeepsDescriptors : (b : Bool) (v : ℕ) → KeepsDescriptors (unblock b v)
unfolding unblock
unblock-KeepsDescriptors true v p = set_return_value-KeepsDescriptors v p
unblock-KeepsDescriptors false v p = refl

pub Holds-wake :
    (ds : SparseVector ℕ) (b : Bool) (pid j : ℕ) (t : Table)
    → Holds ds t j
    → Holds ds (if b then modify pid (unblock true minus_two) t else t) j
Holds-wake ds true pid j t a =
    Holds-modify ds t pid j (unblock true minus_two) (unblock-KeepsId true minus_two)
      (unblock-KeepsDescriptors true minus_two) a
Holds-wake ds false pid j t a = a
