-- ===== src/Text.antt =====
-- os/misc.c and include/misc.h: strings and numbers, and the hexadecimal digits of os/process.c.
pub mod Strings
pub mod Numbers
pub mod StringLaws
pub mod CopyLaws
pub mod Examples
