-- ===== src/Process/Notify.antt =====
-- `EventManager::notify` of one process, kernel/src/event.cpp.
use lensor_os.Prelude.{ℕ, Bool, true, false, none, some, List, [], ◌∷◌, if◌then◌else◌, leb}
use lensor_os.Event.EventType
use lensor_os.Event.Queue.{Event, Listeners, unregister_listener, EventQueue, listens, push}
use lensor_os.Process.{Process}
use lensor_os.Process.Table.{Table, process, modify}

-- The loop over the queues: whether one listens, and the queues.
unfoldable pub push_listening : Event → List EventQueue → Bool × List EventQueue
push_listening event [] = (false, [])
push_listening event (q ∷ qs) =
    let (found, rest) = push_listening event qs in
    if listens event.kind event.filter q then (true, push event q ∷ rest) else (found, q ∷ rest)

abbrev pub with_queues : List EventQueue → Process → Process
with_queues qs p = record p { event_queues = qs }

-- `notify(event, pid)`: `notify` of the process that the number leads to.
unfoldable pub notify : Event → ℕ → Listeners → Table → Listeners × Table
notify event pid m t = elim (process t pid) [
  | none ↦ (m, t)
  | some p ↦
      if leb EventType.count event.kind
      then (m, t)
      else let (found, qs) = push_listening event p.event_queues in
        (
          if found then m else (unregister_listener event.kind p.process_id m).1,
          modify pid (with_queues qs) t,
        )
]
