-- ===== src/Sched.antt =====
-- p4/src/proc.c: the process table, its run queue and the time-slice scheduler.
pub mod Proc
pub mod Queue
pub mod Table
pub mod Fork
pub mod Run
pub mod Sleep
pub mod Wait
mod Tests
