-- ===== src/Lib.antt =====
-- The xv6 kernel of xv6-public/, an x86 teaching kernel with an MLFQ and a stride
-- scheduler, light weight processes (threads), and files of three levels of indirection.
--
-- The parts and their files:
--   Prelude   Shared helpers: Boolean tests on numbers (Tests), the for loop (Loops), lists
--             (Lists), the machine's int with its division (Int), and the results of code that
--             can panic or follow a null pointer (Outcome).
--   Double    The double arithmetic that proc.c uses, as an interface with the laws that the
--             proofs rely on; Double.Hundredths is the instance of the tests, by exact
--             hundredths.
--   Proc      proc.h and the tables of proc.c as one record, Kernel: the fields of struct proc,
--             of a ttable entry and of the trap frame, and the globals of the schedulers. An
--             index of ptable stands for a pointer to struct proc.
--             Proc.Sleep: yield, sleep, wakeup and kill of proc.c. Proc.Table: the loops over
--             ptable. Proc.Services: the calls of the memory, the files and the page tables
--             that proc.c makes, as a record. Proc.Alloc: allocproc. Proc.Fork: fork. Proc.Grow:
--             growproc. Proc.Exit: exit and thread_exit. Proc.Wait: killsamepid and wait.
--             Proc.Wait.Join: thread_join.
--   Sched     The schedulers of proc.c and the clock tick of trap.c. Sched.Boost: MLFQ_Boost.
--             Sched.Mlfq: MLFQ_Scheduler. Sched.MinPass: findMinPass. Sched.Share: cpu_share
--             and set_cpu_share.c. Sched.Loop: Stride_Scheduler and one round of scheduler.
--             Sched.Thread: thread_create, which gives shares.
--             Sched.Tick: MLFQ_Check, the timer case of trap, sys_yield and sys_getlev.
--   Log       log.c, each write of a block being a step before which the power can fail. Log.Power:
--             the disk, and bread and bwrite of bio.c as log.c sees them. Log.Header: the header
--             block. Log.Holds: what a disk holds once its log is replayed. Log.Install,
--             Log.Commit, Log.Recover: install_trans, commit, recover_from_log, and restarts.
--             Log.Dirty: log_write. Log.Space: the steps of concurrent calls of begin_op,
--             log_write and end_op, and the room in the log.
--   Pipe      pipe.c. Pipe.Cells and Pipe.Queue: the ring and its wrapping counters.
--             Pipe.Stream: the bounded queue that a pipe is to be.
--   Bytes     string.c over a memory of bytes. Bytes.Move: memmove. Bytes.Names: strings.
--   Fs        fs.c. Fs.Bits: bits and words of a block. Fs itself and Fs.Free, Fs.Alloc: the
--             superblock, the map of the blocks in use, balloc and bfree. Fs.Bmap: struct inode
--             and bmap; Fs.Bmap.Levels and Fs.Bmap.Walk take its cases for one walk through
--             tables, Fs.Bmap.Entry and Fs.Bmap.Fill are about one step of it. Fs.Inode: iupdate
--             and ilock. Fs.Icache: iget and idup. Fs.Trunc: itrunc, and the list
--             of blocks that it comes to. Fs.Names: skipelem.
--             Fs.File: readi and writei; Fs.File.Labels gives each block of a file its place in
--             it, so that no two places share a block. Fs.Dir: dirlookup.
--   Bcache    bio.c over memide.c. Bcache.Ring takes the links of the buffers for a list, Bcache.Scan
--             has the invariant, and Bcache.Shows relates the cache and the disk to the machine that
--             Log stands on; blocks are functions there of words, here of bytes.
--   Files     file.c: filewrite, pfilewrite, fileread and pfileread over pipes and inodes;
--             Files.Holes: fileread outside a transaction; and in Files.Table the references of the table of open files.
--   Syscall   syscall.c: the arguments of a call in the memory of the process; and in
--             Syscall.Descriptors the calls of sysfile.c on descriptors.
--   Locks     spinlock.c: acquire and release as steps of several CPUs, and what pushcli counts.
--   Kalloc    kalloc.c: the list of free pages.
--   Tests     Runs at concrete inputs.
--
-- State and operations. A function of the kernel is a function from Kernel to Kernel, or to
-- an Outcome where it can panic. What a process does between the switch to it and its return
-- to the scheduler is an argument: a function on Kernel, a list of them for the turns of
-- MLFQ_Scheduler, which then gives its choices in order, or for the sleeps of wait. The steps
-- are those that hold ptable.lock, which one CPU takes at a time, so a step sees no other
-- step's middle; exit and thread_exit are one step, though they close files without the lock.
--
-- The log is a function on a Machine, the disk with the dirty buffers and the number of block
-- writes that the power lasts for; a block is written whole or not at all. Fs works on what the
-- blocks hold as the buffers show it, and on the count of calls in a transaction, without which
-- balloc panics in log_write; that the log has room for the write is left to Log. Reads of a file
-- hold no transaction of their own; filewrite and pfilewrite are taken inside the ones that they
-- open. A pipe's sleeps are arguments as in Proc.
--
-- Bounds. The table has the 64 slots of NPROC and a process the 16 files of NOFILE. The loop
-- of MLFQ_Scheduler needs no fuel: each of its rounds takes a turn from the list or lowers
-- the count of rounds until levturn, an int of 32 bits, is 63; a turn, in which other CPUs run,
-- may set levturn and checkpoint to anything. growproc and thread_create compute sizes modulo 2^32. pids
-- are numbers without wrap-around; a share is an int, and STRIDENUM / share is C's
-- division, which gives a fault at 0. A restart of the machine takes one entry of a list, the
-- number of block writes that the power lasts for. The counters of a pipe are taken modulo 2^32,
-- and a block number is a word of 32 bits; an offset in a file too. The loops of readi and writei have the length as
-- their fuel, which is enough since each chunk has a byte, and those of bget one more than the
-- buffers of the list. The loops of
-- string.c and fs.c run over a count; strlen has the number of addresses left as its fuel, which
-- is enough where there is a 0 in them.
--
-- Not modelled: interrupts inside a step, the assembly of the switch, the contents of memory
-- pages, and the other parts of the kernel (ialloc, iput and the changes
-- of directories, the system calls on paths, devices, page tables) and the user programs.

pub mod Prelude
pub mod Double
pub mod Proc
pub mod Sched
pub mod Log
pub mod Pipe
pub mod Bcache
pub mod Bytes
pub mod Files
pub mod Fs
pub mod Kalloc
pub mod Locks
pub mod Syscall
pub mod Tests
