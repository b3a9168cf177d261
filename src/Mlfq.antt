-- ===== src/Mlfq.antt =====
-- project1_scheduler: the multi-level feedback queue scheduler of proc.c and queue.c.
pub mod State
pub mod Queue
pub mod Kernel
pub mod Scan
pub mod Sched
pub mod Process
pub mod Invariant
pub mod Requeue
pub mod Boost
pub mod Expire
pub mod Choose
pub mod Pick
pub mod Alloc
pub mod Lock
pub mod Examples
