-- ===== src/Event/Queue.antt =====
-- `EventManager::Listeners` and `EventQueue`, kernel/src/event.h. A type is a `u32` that may come
-- from userspace, so it is a number; the map and the array of filters are functions of it.
pub mod Laws
mod Examples
use lensor_os.Prelude.{
  ℕ, zero, suc, ◌+◌, Bool, true, false, not, ◌&&◌, ◌||◌, Option, none, some, List, [], ◌∷◌, ◌++◌,
  leb, ltb, if◌then◌else◌, ◌==◌, length, replicate,
}
use lensor_os.Prelude.Words.{minus_one}
use lensor_os.Containers.RingBuffer
use lensor_os.Containers.RingBuffer.{RingBuffer}
use lensor_os.Event.EventType

-- An `Event`; the filter is its `ProcFD`, and the 128 bytes of data are kept as they are.
pub record Event : Type 0 where
  pub kind : ℕ
  pub filter : ℕ
  pub payload : List ℕ

-- `Listeners`: the processes that listen to a type; a type with no entry has the empty vector.
abbrev pub Listeners : Type 0
Listeners = ℕ → List ℕ

-- An entry of the map is replaced.
abbrev pub update {ℓ} : {A : Type ℓ} → (ℕ → A) → ℕ → A → ℕ → A
update m k v j = if j == k then v else m j

-- `std::find(…) != end()`.
abbrev pub contains : List ℕ → ℕ → Bool
contains [] x = false
contains (y ∷ ys) x = y == x || contains ys x

-- `std::erase(vector, value)`.
abbrev pub erase_value : ℕ → List ℕ → List ℕ
erase_value x [] = []
erase_value x (y ∷ ys) = if y == x then erase_value x ys else y ∷ erase_value x ys

-- `register_listener`: the process is appended if the search finds it.
unfoldable pub register_listener : ℕ → ℕ → Listeners → Listeners
register_listener event_type new_listener m =
    if leb EventType.count event_type
    then m
    else if contains (m event_type) new_listener
    then update m event_type (m event_type ++ (new_listener ∷ []))
    else m

-- `unregister_listener`: whether anything was erased, and the map.
unfoldable pub unregister_listener : ℕ → ℕ → Listeners → Bool × Listeners
unregister_listener event_type listener m = if leb EventType.count event_type then (false, m) else (
  contains (m event_type) listener,
  update m event_type (erase_value listener (m event_type)),
)

pub record EventQueue : Type 0 where
  pub id : ℕ
  pub pid : ℕ
  pub events : RingBuffer Event
  pub filters : ℕ → List ℕ

abbrev pub no_event : Event
no_event = record { kind = 0; filter = minus_one; payload = replicate 128 0 }

-- A queue as the constructor leaves it: 32 slots, no filter, and the process number -1.
unfoldable pub new_queue : ℕ → EventQueue
new_queue id = record {
  id = id;
  pid = minus_one;
  events = record { slots = replicate 32 no_event; head = 0; tail = 0 };
  filters = λ _. [];
}

unfoldable pub register_listening : ℕ → ℕ → EventQueue → Listeners → EventQueue × Listeners
register_listening e filt q m = if leb EventType.count e then (q, m) else (
  record q { filters = update q.filters e (q.filters e ++ (filt ∷ [])) },
  register_listener e q.pid m,
)

unfoldable pub unregister_listening : ℕ → ℕ → EventQueue → Listeners → EventQueue × Listeners
unregister_listening e filt q m =
    let left = erase_value filt (q.filters e) in
    let q' = record q { filters = update q.filters e left } in
    if leb EventType.count e
    then (q, m)
    else if length left == 0
    then (q', (unregister_listener e q.pid m).1)
    else (q', m)

unfoldable pub listens : ℕ → ℕ → EventQueue → Bool
listens e filt q =
    if leb EventType.count e
    then false
    else not (length (q.filters e) == 0) && contains (q.filters e) filt

unfoldable pub push : Event → EventQueue → EventQueue
push e q = record q { events = RingBuffer.push_back e q.events }

unfoldable pub has_events : EventQueue → Bool
has_events q = ltb 0 (RingBuffer.size q.events)

-- `pop`: an empty queue gives the invalid event. A read outside the storage has no value.
unfoldable pub pop : EventQueue → Option Event × EventQueue
pop q =
    let popped = RingBuffer.pop_front q.events in
    if ltb 0 (RingBuffer.size q.events)
    then (popped.0, record q { events = popped.1 })
    else (some no_event, q)
