-- ===== src/Tests.antt =====
-- Runs of the models at concrete inputs, and the theorems at inputs that meet their hypotheses.
pub mod Fixtures
mod Sched
mod Proc
mod Exit
mod Grow
mod Thread
mod Log
mod Pipe
mod Bytes
mod Fs
mod Bmap
mod Inode
mod Icache
mod Trunc
mod File
mod Bcache
mod Files
mod Syscall
mod Locks
mod Kalloc
mod Dir
