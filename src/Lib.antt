-- ===== src/Lib.antt =====
-- GeekOS, a small kernel for x86 PCs: parts of its kernel and of its C library, with what makes
-- them correct.
--
-- The parts and how they interact. Kernel threads wait on the run queues of the scheduler
-- (src/geekos/kthread.c), which are lists in the sense of the macros of include/geekos/list.h; the
-- free pages of the page allocator (src/geekos/mem.c) and the buffers of the filesystem buffer
-- cache (src/geekos/bufcache.c) stand on such lists too. The filesystems keep their allocation
-- maps as bit sets (src/geekos/bitset.c) and reach the block device through the buffer cache. The
-- virtual filesystem (src/geekos/vfs.c) chooses the filesystem for a path, with the string
-- functions of src/common/string.c.
--
-- The files. A module is named for a part; its own file has the data and the operations, its child
-- modules have the proofs, and its child Tests has runs at concrete inputs.
--   Base: C conditions (ltb, leb, ==), lists indexed by native numbers, bits of words, and
--     Outcome, the result of code with assertions: a value, a failed KASSERT, or no end within the
--     fuel; Reasons has the same for code that can also leave an object, wait for itself or use a
--     wild pointer.
--   Errno: the error codes of include/geekos/errno.h.
--   CString: src/common/string.c. A pointer is the list of the bytes up to the end of its object.
--     The functions have the names of the source; `none` is an access beyond the object.
--   Bitset: src/geekos/bitset.c. A bit set is its sequence of bytes; Set_Bit is set_bit, and so
--     on.
--   LinkedList: include/geekos/list.h. Links and end pointers are explicit, as functions from
--     addresses; the theorems relate them to sequences, which the other modules use for lists.
--   Bufcache: src/geekos/bufcache.c, with Get_FS_Buffer as get_fs_buffer, and so on. The block
--     device is a parameter: the contents of its sectors and the code with which a request
--     completes.
--   Mem: src/geekos/mem.c and include/geekos/mem.h. A page is its index in g_pageList. The
--     interrupt flag is part of the state.
--   Scheduler: src/geekos/kthread.c and the quantum of src/geekos/timer.c. A thread is the address
--     of its struct. The child Life has creation, exit, join and disposal, the child Policy the
--     change between round robin and multilevel feedback.
--   Vfs: src/geekos/vfs.c, Unpack_Path, Lookup_Mount_Point and Do_Open; the child Mount has
--     Register_Filesystem, Format and Mount, the child Dispatch Stat, Delete, Sync
--     and the like, the child Files Read, Write, Seek and Read_Fully, which calls Stat, Do_Open, Read
--     and Close, and whose loop runs on fuel. The filesystems' functions are a parameter.
--   Blockdev: src/geekos/blockdev.c, the list of devices, which Mount opens and closes; the child
--     Requests has the requests and their queue, with the scheduler's state, and the child Delivery
--     interleaves clients and driver as a step relation.
--   Synch: src/geekos/synch.c, mutexes and condition variables on the scheduler's state; the child
--     Semaphores has the named semaphores. A call that waits is cut at the switch to another
--     thread, and its rest is a function of its own (resume_lock, resume_cond); the child Exclusion
--     interleaves the calls of all threads as a step relation.
--   Pfat: src/geekos/pfat.c, the read-only filesystem: PFAT_Read, PFAT_Seek and PFAT_Write; the
--     child Files has lookup, Open, Stat and directories. The sectors of the device and the code of
--     a request are a parameter, and so is the allocator.
--   Gosfs: src/geekos/gosfs.c, the writable filesystem: Do_GOSFS_Lookup with one function for a
--     round of its loop and one for each way a round ends; the child Files has GOSFS_Open,
--     GOSFS_Open_Directory, GOSFS_Stat and GOSFS_Lookup, the child Change GOSFS_Create_Directory
--     and GOSFS_Delete, the child Entries GOSFS_Read_Entry. A block is the array of its directory
--     entries; what the client sees of the buffer cache is the contents of the blocks and which of
--     them are in use. Bytes that are read before they are written are parameters.
--   Screen: src/geekos/screen.c, the console with its escape sequences; the video memory is the
--     sequence of its cells.
--   Paging: src/geekos/paging.c, the slots of the paging file and the transfer of pages.
--   Keyboard: src/geekos/keyboard.c, the ring buffer of keycodes and Read_Key, without the
--     interrupt flag; the children Tables and Handler have the interrupt handler, of which
--     Modifiers and Held show how the shift state follows the keys.
--   Signal: src/geekos/signal.c. The frame is the words that an interrupt leaves on the kernel
--     stack; user memory is words at addresses.
--   Timer: src/geekos/timer.c, the timer event and the interrupt handler, which calls the
--     scheduler; an expired event makes SIGALRM the pending signal of a thread.
--   Argblock: src/geekos/argblock.c. The block is the number of arguments, the vector and the
--     strings.
--
-- Numbers are natural numbers, with the wrap-around of 32-bit words written out where the source
-- can reach it. Signed values that the source keeps non-negative (a page's clock, priorities,
-- ready queues) are natural numbers too.
--
-- Fuel. The loops of the list functions run on fuel, for which any number above the length of the
-- list is enough; the loop of Switch_To_RR runs on one more than the length of the queue, and is
-- proved to end with it. The loops over the arguments of a command run on fuel above their number.
-- Read_Fully runs on fuel; more than the length of the file is enough. The loop of Do_GOSFS_Lookup
-- takes one round more than the path has components, and that of GOSFS_Read_Entry at most 20. All
-- other loops are recursions on what is left to do.
--
-- Not modelled: assembly code, hardware tables and device drivers; the heap, which is a third-
-- party allocator and is taken as a parameter; Init_Mem, whose page ranges come from the linker
-- and the boot loader; the contents of a new thread's stack and thread-local data; PFAT's
-- Mount; GOSFS's Format, Mount and Get_Path, and its Read, Write, Seek, FStat and Sync, which are
-- stubs in the source; relative paths; page tables and page
-- faults, system calls and the user programs. Writing
-- a page to the paging file is a parameter of alloc_pageable_page, as is what other threads do
-- meanwhile. The formatted output is adapted from another library. The mutexes that protect the
-- buffer cache, the devices, the filesystems and the mount points are not modelled: each operation
-- is one step. GOSFS_Open and Do_GOSFS_Lookup hold no mutex over their bodies in the source, and are
-- modelled as they run alone.
pub mod Argblock
pub mod Base
pub mod Bitset
pub mod Blockdev
pub mod Bufcache
pub mod CString
pub mod Errno
pub mod Gosfs
pub mod Keyboard
pub mod LinkedList
pub mod Mem
pub mod Paging
pub mod Pfat
pub mod Scheduler
pub mod Screen
pub mod Signal
pub mod Synch
pub mod Timer
pub mod Vfs
