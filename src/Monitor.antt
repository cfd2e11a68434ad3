-- ===== src/Monitor.antt =====
-- apps/q4: producers and consumers that share a circular buffer under a lock and two condition variables.
pub mod Steps
pub mod Sleepers
pub mod Soundness
pub mod Turns
pub mod Runs
pub mod Examples
