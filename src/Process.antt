-- ===== src/Process.antt =====
-- os/process.c and include/os/process.h: process control blocks, the scheduler and the queues
-- between which processes move.
pub mod Status
pub mod Transitions
pub mod InitLaws
pub mod ReadyLaws
pub mod Schedule
pub mod Requeue
pub mod TransitionLaws
pub mod ScheduleLaws
pub mod Freeing
pub mod Reclaim
pub mod Reaping
pub mod Exit
pub mod Examples
