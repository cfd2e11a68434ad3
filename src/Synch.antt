-- ===== src/Synch.antt =====
-- os/synch.c and include/os/synch.h: semaphores, locks and condition variables.
pub mod Handles
pub mod Semaphore
pub mod Mutex
pub mod Condition
pub mod Wake
pub mod SignalLaws
pub mod Sleep
pub mod Exchange
pub mod WaitLaws
pub mod LockLaws
pub mod Handover
pub mod ConditionSteps
pub mod ConditionLaws
pub mod Examples
pub mod ConditionExamples
pub mod HandleLaws
