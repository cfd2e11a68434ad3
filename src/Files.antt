-- ===== src/Files.antt =====
-- os/filesys.c and include/os/filesys.h: the table of open files in front of two file systems.
pub mod Table
pub mod Calls
pub mod TableLaws
pub mod Examples
