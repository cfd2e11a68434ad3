-- ===== src/Slots.antt =====
-- apps/q3: producers and consumers that share a circular buffer under two semaphores and a lock.
pub mod Steps
pub mod Claims
pub mod Safety
pub mod Runs
pub mod Examples
