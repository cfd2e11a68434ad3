-- ===== src/Buffer.antt =====
-- apps/q2: producers and consumers that share a circular buffer under a lock.
pub mod Ring
pub mod RingLaws
pub mod Examples
