-- ===== src/Queue.antt =====
-- os/queue.c and include/os/queue.h: doubly-linked queues over a fixed pool of links.
pub mod Store
pub mod Shape
pub mod Splice
pub mod Inserted
pub mod InsertionLaws
pub mod Unlinked
pub mod Erased
pub mod AccessLaws
pub mod RemovalLaws
pub mod ReturnedLaws
pub mod MovingLaws
pub mod InitLaws
pub mod Insertion
pub mod Removal
pub mod Moving
mod Examples
