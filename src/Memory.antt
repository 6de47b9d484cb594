-- ===== src/Memory.antt =====
-- The memory managers of the kernel, kernel/src/bitmap.cpp and kernel/src/memory/.
pub mod Bitmap
pub mod Physical
pub mod Heap
pub mod Paging
