-- ===== src/Startup.antt =====
-- The creation of processes: ProcessFork, get_argument and process_create of os/process.c.
pub mod Arguments
pub mod ArgumentLaws
pub mod Fork
pub mod NameLaws
pub mod ClaimLaws
pub mod AdmitLaws
pub mod SpawnLaws
pub mod CallLaws
pub mod ForkLaws
pub mod GivingBackLaws
pub mod RefusalLaws
pub mod Loading
pub mod LoadingLaws
pub mod ListingLaws
pub mod ChunkLaws
pub mod Examples
pub mod LoadingExamples
pub mod ForkExamples
