-- ===== src/Lib.antt =====
-- AdrOS, a Unix-like kernel for 32-bit machines: a model of its core and what it guarantees.
--
-- The memory of the kernel is handed out by three allocators, one above the other. `pmm_alloc_page`
-- (src/mm/pmm.c) gives out page frames and counts the mappings that share one; `kva_alloc_pages`
-- (src/kernel/kva_alloc.c) gives out ranges of kernel addresses to map frames at; `kmalloc`
-- (src/mm/heap.c) divides 8 MB of mapped memory into blocks of a power of two. Each runs under a
-- lock of its own, so a call is one step of a state.
--
-- The scheduler (src/kernel/scheduler.c) keeps the ready processes of each CPU in lists by priority,
-- of which `schedule` runs the first of the best priority, and the sleeping ones in a list by time,
-- from which the timer interrupt (`process_wake_check`) moves those whose time has come to the lists
-- of the ready ones; it also rings the alarms, which wait in a list of the same kind, and counts the
-- time of the process that runs. The lists are linked through fields of `struct process`, and each is
-- modelled with its pointers and shown to hold a sequence of processes.
--
-- Threads wait for each other at semaphores (src/kernel/sync.c): a process that finds none left lists
-- itself, leaves the CPU through `schedule`, and finds out when it runs again whether it was woken by
-- `ksem_signal` or by something else. A mutex is a semaphore that starts at 1, and a mailbox is a ring
-- of messages with a semaphore for the messages and one for the free places. A condition variable keeps
-- a list of its own of the processes that gave the mutex back to sleep on it.
--
-- Processes share memory in segments (src/kernel/shm.c): each holds page frames of the first allocator
-- and counts the processes that map it, by their entries in `mmaps`, and lives until it is removed and
-- unmapped. At start the command line (src/kernel/cmdline.c) is sorted into what the kernel and what
-- init is told, and the initial file system is unpacked by the LZ4 decoder (src/kernel/lz4.c), whose
-- frames carry checksums of xxHash-32 (include/xxhash32.h).
--
-- Modules and the code they model, one module per component, with the properties in its children:
--   Bitmap   the bit arrays of src/mm/pmm.c and src/kernel/kva_alloc.c
--   Pmm      src/mm/pmm.c: one function per `pmm_` function, on a record of its static variables
--   Heap     src/mm/heap.c: `kheap_init`, `kmalloc`, `kfree` and their helpers; a heap is the header
--            at each offset and, for each order, the sequence of its free blocks
--   Kva      src/kernel/kva_alloc.c: one function per `kva_` function, on the bitmap
--   Links    the doubly linked lists of src/kernel/scheduler.c, by their link fields
--   Runqueue `rq_enqueue`, `rq_dequeue`, `bsf32`, `rq_pick_next`
--   TimerQueue  the sleep queue's insert and remove, and the loop that takes expired processes off;
--            the alarm queue is the same code on other fields, and TimerQueue.Alarms has
--            `process_alarm_set` and the loop over the alarms
--   Sched    `schedule`, `sched_enqueue_ready`, and in Sched.Tick `process_wake_check` and
--            `sched_ap_tick`
--   Ksem     `ksem_init`, `ksem_wait_timeout` in its two sections, `ksem_signal`, and the mutex as steps
--            of threads in any interleaving
--   Kcond    the condition variable of src/kernel/sync.c: the sections of its calls under its lock
--   Kmbox    the mailbox of src/kernel/sync.c: the sections of its calls under its lock
--   Shm      src/kernel/shm.c: `shm_get`, `shm_at`, `shm_dt`, `shm_ctl` and their helpers
--   Cmdline  src/kernel/cmdline.c: `cmdline_parse`, `cmdline_get`, `cmdline_has`
--   Lz4      src/kernel/lz4.c: `lz4_decompress_block`, and in Lz4.Frame `lz4_decompress_frame`; a buffer
--            is the list of its bytes, and the tests on pointers are on 32-bit addresses
--   Utils    src/kernel/utils.c: `memcpy`, `memmove`, `reverse`, `itoa`, `atoi`, `itoa_hex`
--   Xxhash   include/xxhash32.h
--   Prelude  Booleans, lists, texts, arrays, machine words and bit operations that the others share
--
-- Numbers are natural, and an operation that wraps in C is taken modulo the width of its type; an
-- address has 32 bits. A loop with a bound is a recursion on the rounds that are left. The search of
-- `pmm_alloc_blocks` skips ahead, so it runs on `max_frames` rounds of fuel, and the theorem that it
-- finds every run shows that they are enough. The walks of the sleep queue run on 2^32 rounds: a list
-- of distinct 32-bit addresses is no longer, which the theorems about them use. The loop over the
-- alarms has a round more, and returns none where it does not end within it. The loops of the LZ4
-- decoders run on a round more than the input has bytes, and are shown to end within them where no
-- pointer wraps around the address space; where one does and leaves its buffer, the code goes on in
-- other memory, and the model gives no answer.
--
-- Not modelled: the spinlocks themselves, what is printed, the discovery of memory by the architecture
-- and the page tables (src/mm/vmm.c, src/arch, src/hal), the switch of stacks, the load counters and
-- the interrupts between CPUs, process creation, exit and signals, the slab allocator, file systems,
-- terminals, sockets, system calls, drivers and the user space: they are other components, and the ones above do not call them, or only to be told a value.
mod Prelude
pub mod Bitmap
pub mod Pmm
pub mod Heap
pub mod Kva
pub mod Ksem
pub mod Kcond
pub mod Kmbox
pub mod Shm
pub mod Cmdline
pub mod Utils
pub mod Xxhash
pub mod Lz4
pub mod Links
pub mod Runqueue
pub mod TimerQueue
pub mod Sched
