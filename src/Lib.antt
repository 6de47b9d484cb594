-- ===== src/Lib.antt =====
-- A verification library of the LensorOS kernel: the parts of it that keep processes, memory, files
-- and the channels between processes.
--
-- The program. The kernel hands out physical pages (kernel/src/memory/physical_memory_manager.cpp,
-- over the bitmap of kernel/src/bitmap.cpp), runs processes round robin (kernel/src/scheduler.cpp),
-- and serves their system calls (kernel/src/interrupts/syscalls.cpp). A descriptor of a process
-- leads through a sparse vector to an entry of the table of open files
-- (kernel/src/virtual_filesystem.cpp), whose metadata names a driver. Pipes and sockets
-- (kernel/src/storage/filesystem_drivers/) are drivers whose reads and writes wake the processes
-- that wait on them. A process that ends wakes those that wait for it, leaves a zombie at its
-- parent, and gives back its pages and its files.
--
-- The files.
--   Prelude: names, Boolean tests, lists over native numbers, and words of 64 bits.
--   Memory.Bitmap, Memory.Physical: the page allocator (`lock_page`, `free_page_impl`,
--     `request_page`, `request_pages`), with children for locking, the hint, single pages, runs of
--     pages, the counters and the invariant of any sequence of calls.
--   Memory.Heap: `malloc`, `free` and what they call (kernel/src/memory/heap.cpp), as a store of
--     headers; Chain and Sound say what it means that the headers lay out a list of segments,
--     Combine, Split, FirstFit, Expand and Growth follow each operation on the list, Granted counts
--     the pages that an expansion takes, tables included, Supply is where they come from, Malloc
--     and Contract compare the whole with the allocator on lists, and Aligned is `aligned_new`.
--   Memory.Paging: page directory entries, `map`, `map_pages`, `unmap` and `unmap_pages` of paging.h
--     and virtual_memory_manager.cpp, on tables in memory; Entry is the arithmetic of an entry, Tree
--     says that the tables below a page map form a tree, Descent is one step of `map`, Translation,
--     Runs and Unmapping are what an address translates to.
--   Containers.SparseVector, Containers.RingBuffer: std/include/extensions_sparse_vector and
--     std/include/extensions_ring_buffer.
--   Event.Queue, Process.Notify: kernel/src/event.h and `EventManager::notify` of event.cpp.
--   Process: `struct Process` of kernel/src/scheduler.h; Process.Table is the queue as a table.
--   Storage.Pipe, Storage.Fifo, Storage.Socket: the drivers of pipe.cpp, socket.h and socket.cpp;
--     Storage.Conserving is the interface of a buffer that neither loses nor invents a byte.
--   Storage.VirtualFilesystem: descriptors, `add_file`, `dup`, `dup2`, `close`, and `open` over the
--     mounts (`open_path` here).
--   Syscalls.Files: `sys$2_read` and `sys$3_write`. Syscalls.Mapping: `sys$6_map` and `sys$7_unmap`.
--     Syscalls.Seeking: `sys$14_seek`. Syscalls.Pipes: `sys$12_repfd` and `sys$13_pipe`.
--     Syscalls.Sockets: `sys$20_listen`, `sys$21_connect` and `sys$22_accept`.
--   Scheduler: `switch_process_impl`, `add_process`, `remove_process`, `Process::destroy`, `yield`;
--     Scheduler.Waiting is `sys$9_waitpid`; Scheduler.Fork is the loop of `CopyUserspaceProcess` over
--     the file descriptors, its state between two rounds is described in Fork.Copying.
--   Samples, and the modules named Examples: concrete states, tests, and the theorems applied to
--     them.
--
-- How the state is modelled. A handler is a function from the state to what it returns and leaves.
-- Words wrap at 2^64 where the source's do. Objects that are shared by pointer live at addresses;
-- a deleted object is `none`, and code that reads one has no result. An expansion of the heap for
-- which no page is granted has none either: the source goes on with the page at address 0. A
-- function that blocks ends in an answer of its own, since the scheduler does not come back to it.
-- The loops on fuel are those of `request_page` and `request_pages`, whose fuel is the number of
-- rounds that the source's bounds allow (that they always answer is proved in
-- Memory.Physical.Runs), and the two of `malloc`: its search, with the bytes of the heap as fuel,
-- which are more than its segments, and its calls of itself, of which three are allowed and are
-- enough (Memory.Heap.Contract). The loop of a fork that fills holes has as fuel the size to reach
-- and the length of the free list, one of which each round uses up (Scheduler.Fork.Copying).
--
-- What is not modelled. Registers and devices, whose behaviour is not in the repository; the
-- copying and freeing of whole page maps; `fork` beyond the file descriptors, and `exec`; the
-- reading of the firmware's memory map; the drivers behind `open`, which are fields of a mount;
-- the C library and the programs under user/; and the copies of GNU-EFI and of the toolchain's
-- patches.
pub mod Prelude
pub mod Memory
pub mod Containers
pub mod Event
pub mod Process
pub mod Storage
pub mod Syscalls
pub mod Scheduler
pub mod Samples
