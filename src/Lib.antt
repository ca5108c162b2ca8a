-- ===== src/Lib.antt =====
-- VibeOS, a hobby operating system in C: a kernel for x86-64 and 64-bit ARM with a window system,
-- an ext2 file system and a network stack, and a user land with its own C library. This library
-- models the parts of it whose state and operations can be written as functions.
--
-- The parts and how they interact. The kernel heap hands out the memory of nearly every kernel
-- object. A process owns a table of file descriptors; the calls read, write and ioctl go through it
-- to the operations of a device, a file or one end of a pseudo-terminal. The terminal emulator holds
-- the master end of a pseudo-terminal and the shell runs on the slave end. All parts report events to
-- the journal, which the kernel's main loop flushes to disk. The virtual file system puts three kinds of
-- files under one name space: those built into the kernel, those in memory, and those of a mounted
-- disk. The big kernel lock lets one processor at a time run kernel code. The string routines serve
-- all of them.
--
-- Which file models which part:
--   Base           numbers, Boolean tests, lists and fixed-width words that the parts share
--   Syscall        the error numbers of kernel/include/syscall.h
--   KernelHeap     kernel/src/alloc.c: kmalloc_init, kmalloc_locked, kfree_locked, kmalloc_get_free;
--                  Aux has kheap_init, kheap_alloc and kheap_free, Calls a client of the heap
--   Pty            kernel/src/pty.c: pty_alloc, pty_release, the reads and writes of the two ends,
--                  pty_ioctl; Fifo has ring_reset, ring_used, ring_write and ring_read
--   KernelString   kernel/src/string.c: every routine
--   Fd             kernel/src/fd.c: fd_table_init, fd_bind, fd_alloc, fd_close, fd_read, fd_write,
--                  fd_ioctl
--   Clipboard      kernel/src/clipboard.c: clipboard_set, clipboard_get, clipboard_len
--   Journal        kernel/src/journal.c: journal_init, journal_log, journal_log_hex, journal_get,
--                  the persistence flag; Format has journal_format_all
--   UserHeap       user/umalloc.c: umalloc_nolock, ufree_nolock, urealloc_nolock, grow_heap, split_block,
--                  coalesce_forward; umalloc, ufree and urealloc are these under the lock
--   UserString     user/libc/string.c: strlcpy, strncpy, strspn, strcspn, strstr, strtok_r and the other
--                  routines that the kernel does not have
--   Vfs            kernel/src/vfs.c: Names (paths), Store (the tables), Access (permissions, chmod, chown),
--                  Files (create, unlink, mkdir, read, write, open), Stat (vfs_stat_path) and Listing
--                  (vfs_readdir)
--   BigLock        kernel/src/bkl.c: bkl_acquire and bkl_release, one statement at a time
--   Ext2           kernel/src/ext2_fs.c: the bitmaps; Mapping has ext2_bmap_alloc, the pointer tables and the
--                  lookup in ext2_read; Reading has ext2_read, Directory the lookup
--                  of paths and new entries; Ramdisk has kernel/src/ramdisk.c
--   StdLib         user/libc/stdlib.c: Environ has the environment, Number the numbers in text, Sort qsort,
--                  Exit atexit and exit
--   Keymap         kernel/src/keymap.c: Tables has the built-in layouts
--
-- How state and operations correspond. A module's static variables are the fields of one record, and
-- a function that changes them takes the record and returns the new one beside its result. Memory is
-- a function from addresses to bytes, or to block headers in the heaps; NULL is the address 0 where
-- the code compares addresses and `none` where it only tests for it. Machine words are numbers, with
-- the reduction modulo 2^64 or 2^32 written out wherever the code can wrap.
--
-- Fuel. The walks over heap blocks and the loops that look for a NUL take fuel and return `none` when
-- it runs out. The heap walks get one unit for each byte of the heap and one more, which is enough
-- since a header takes 24 bytes. The theorems about strings ask for more fuel than the string is
-- long.
-- The user heap takes its fuel from the caller: the theorems ask for more than there are blocks. How
-- often it may grow in one call is a second bound, since a request that overflows grows the heap
-- until the kernel refuses. The kernel's side of sbrk is a parameter.
--
-- The virtual file system takes the operations of ext2_fs.c as a record of functions on a state of
-- their own, and the user number of the calling process as an argument.
--
-- The big kernel lock is a machine of any number of processors. A processor's place in the two
-- functions is part of the state, each load or store is a step, and a list of events gives the order
-- in which processors call the functions and take their steps.
--
-- The ext2 file system takes its block device as a record of functions, with what it relies on as a
-- hypothesis that the device in memory meets. Whether kmalloc serves a buffer of one block is an
-- argument. A bit of a bitmap is a Boolean, and the bytes of a block are a function. The loop of
-- ext2_read has a unit of fuel for each byte asked for and one more, since each turn reads a byte. The
-- search in a block of a directory has one for each byte of the block and one more, since each entry
-- that is passed has a length, and the lookup of a path one for each character and one more.
--
-- In the C library, strings that a function only reads are lists of the bytes before the NUL. qsort
-- works on an array of elements that are values, swapped as a whole; a unit of fuel for each element
-- is enough for the depth of its recursion. What malloc and realloc give is an argument.
--
-- The parser of layout files has a unit of fuel for each byte, since each turn of its outer loop takes
-- at least one.
--
-- ext2_read does not compare the index into the table of tables with the size of its buffer, so what
-- the heap holds behind that buffer is an argument of the models of ext2_read and of its lookup.
--
-- What is not modelled: spinlocks other than the big kernel lock (each other modelled call is one
-- atomic step), output on the serial line, drawing, device registers, page tables and context
-- switches, and the programs in C++ and Rust. The third-party libraries under third_party are not
-- modelled either. Of ext2_fs.c the operations that write a whole file or directory, formatting and
-- mounting have no model, and of the kernel neither have processes, the network stack, the terminal
-- and the window system, nor of the user land the shell, the other programs and the rest of the C
-- library.
pub mod Base
pub mod Syscall
pub mod KernelHeap
pub mod Pty
pub mod KernelString
pub mod Fd
pub mod Clipboard
pub mod Journal
pub mod UserHeap
pub mod StdLib
pub mod UserString
pub mod Vfs
pub mod BigLock
pub mod Keymap
pub mod Ext2
