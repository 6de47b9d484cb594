-- ===== src/Syscalls.antt =====
-- The system calls of kernel/src/interrupts/syscalls.cpp.
pub mod Files
pub mod Sockets
pub mod Mapping
pub mod Seeking
pub mod Pipes
