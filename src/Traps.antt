-- ===== src/Traps.antt =====
-- os/traps.c: traps and interrupts.
pub mod Arguments
pub mod Dispatch
pub mod Laws
pub mod ExitLaws
pub mod Examples
pub mod ExitExamples
