-- ===== src/Sched.antt =====
-- The scheduler of xv6-public/proc.c, trap.c and set_cpu_share.c: a multilevel feedback queue
-- beside a stride scheduler, which share the CPU by pass values.
pub mod MinPass
pub mod Boost
pub mod Mlfq
pub mod Thread
pub mod Tick
pub mod Share
pub mod Loop
