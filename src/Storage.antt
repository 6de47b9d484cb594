-- ===== src/Storage.antt =====
-- The file system drivers that are queues of bytes, kernel/src/storage/filesystem_drivers/.
pub mod Bytes
pub mod Conserving
pub mod Pipe
pub mod Fifo
pub mod Socket
pub mod VirtualFilesystem
