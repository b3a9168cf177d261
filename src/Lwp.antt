-- ===== src/Lwp.antt =====
-- project2_LWP: the threads of a process, from proc.c.
pub mod State
pub mod Thread
pub mod Process
pub mod RoundRobin
pub mod Dispatch
pub mod Join
pub mod Exit
pub mod Wakeup
pub mod Yield
pub mod Create
pub mod Creation
pub mod Examples
