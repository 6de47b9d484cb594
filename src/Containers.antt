-- ===== src/Containers.antt =====
-- The containers that the kernel is built with: std/include/ and kernel/src/linked_list.h.
pub mod SparseVector
pub mod RingBuffer
