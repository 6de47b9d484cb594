-- ===== src/Event.antt =====
-- Events: the queues of kernel/src/event.h.
pub mod EventType
pub mod Queue
