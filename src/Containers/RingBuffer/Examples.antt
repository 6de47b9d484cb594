-- ===== src/Containers/RingBuffer/Examples.antt =====
-- Runs of ring buffers.
use lensor_os.Prelude.{ℕ, [], ◌∷◌}
use lensor_os.Containers.RingBuffer.{RingBuffer}

-- Two elements in three slots, from the first slot on.
abbrev two_in_three : RingBuffer ℕ
two_in_three = record { slots = 1 ∷ 2 ∷ 0 ∷ []; head = 0; tail = 2 }
