-- ===== src/Event/Queue/Examples.antt =====
-- A queue that listens, and listeners that cannot be added.
use lensor_os.Prelude.{◌≡◌, ◌&&◌, false, if◌then◌else◌, ◌==◌, []}
use lensor_os.Event.Queue.{
  EventQueue, new_queue, register_listening, unregister_listening, listens, Listeners,
}
use lensor_os.Event.Queue.Laws.{listens-unregister}

abbrev nobody : Listeners
nobody e = []

abbrev listening : EventQueue
listening = (register_listening 1 5 (new_queue 1) nobody).0

unregistered_is_unheard :
    listens 1 5 (unregister_listening 1 5 listening nobody).0
    ≡ (if 1 == 1 && 5 == 5 then false else listens 1 5 listening)
unregistered_is_unheard = listens-unregister 1 5 1 5 listening nobody
