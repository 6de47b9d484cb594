-- ===== src/Event/Queue/Laws.antt =====
-- What a queue listens to after it is told to, and who is told of an event.
use lensor_os.Prelude.{
  ℕ, ◌≡◌, refl, true, false, ◌&&◌, ◌||◌, List, [], ◌∷◌, ◌++◌, arith, leb, ltb, if◌then◌else◌, ◌==◌,
  length,
}
use lensor_os.Event.Queue.{
  Listeners, contains, erase_value, register_listener, EventQueue, register_listening,
  unregister_listening, listens,
}
use lensor_os.Event.EventType

contains-append :
    (xs ys : List ℕ) (x : ℕ) → contains (xs ++ ys) x ≡ (contains xs x || contains ys x)
contains-append [] ys x = refl
contains-append (y ∷ xs) ys x = ground (arith, contains-append xs ys x)

contains-erase_value :
    (v : ℕ) (xs : List ℕ) (x : ℕ)
    → contains (erase_value v xs) x ≡ (if v == x then false else contains xs x)
contains-erase_value v [] x = ground arith
contains-erase_value v (y ∷ xs) x = ground (arith, contains-erase_value v xs x)

contains-empty : (xs : List ℕ) (x : ℕ) → (length xs == 0) ≡ true → contains xs x ≡ false
contains-empty [] x h = refl
contains-empty (y ∷ xs) x h = ground arith

listens_lem :
    (e filt : ℕ) (q : EventQueue)
    → listens e filt q ≡ (if leb EventType.count e then false else contains (q.filters e) filt)
unfolding listens
listens_lem e filt q = ground (arith, contains-empty (q.filters e) filt)

-- After `register_listening` a queue listens to that pair of type and filter, for a type below
-- COUNT, and to whatever it listened to before.
pub listens-register :
    (e filt e' filt' : ℕ) (q : EventQueue) (m : Listeners)
    → listens e' filt' (register_listening e filt q m).0
      ≡ ((ltb e EventType.count && (e == e' && filt == filt')) || listens e' filt' q)
unfolding register_listening
listens-register e filt e' filt' q m = ground (
  arith,
  listens_lem e' filt' q,
  listens_lem e' filt' (register_listening e filt q m).0,
  contains-append (q.filters e) (filt ∷ []) filt',
)

-- After `unregister_listening` it does not listen to that pair, and to every other as before.
pub listens-unregister :
    (e filt e' filt' : ℕ) (q : EventQueue) (m : Listeners)
    → listens e' filt' (unregister_listening e filt q m).0
      ≡ (if e == e' && filt == filt' then false else listens e' filt' q)
unfolding unregister_listening
listens-unregister e filt e' filt' q m = ground (
  arith,
  listens_lem e' filt' q,
  listens_lem e' filt' (unregister_listening e filt q m).0,
  contains-erase_value filt (q.filters e) filt',
)

-- `register_listener` adds no process that is not among the listeners already: whoever listens to a
-- type afterwards did so before, and the other way round.
pub register_listener_adds_none :
    (e pid e' pid' : ℕ) (m : Listeners)
    → contains (register_listener e pid m e') pid' ≡ contains (m e') pid'
unfolding register_listener
register_listener_adds_none e pid e' pid' m = ground (arith, contains-append (m e) (pid ∷ []) pid')
