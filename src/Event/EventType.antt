-- ===== src/Event/EventType.antt =====
-- `EventType`, kernel/src/event.h: the numbers of the enumeration.
use lensor_os.Prelude.{ℕ}

abbrev pub invalid : ℕ
invalid = 0

abbrev pub ready_to_read : ℕ
ready_to_read = 1

abbrev pub ready_to_write : ℕ
ready_to_write = 2

abbrev pub count : ℕ
count = 3
