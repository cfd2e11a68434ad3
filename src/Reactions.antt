-- ===== src/Reactions.antt =====
-- apps/q5: injectors of molecules and reactions between them, as processes that share semaphores.
pub mod Atmosphere
pub mod Conservation
pub mod Suffixes
pub mod Stuck
pub mod Kinds
pub mod Progress
pub mod Completion
pub mod Examples
