-- ===== src/Memory.antt =====
-- os/memory.c and include/os/memory.h: the map of free pages, page-table entries and the
-- translation of user addresses.
pub mod Freemap
pub mod Address
pub mod PteLaws
pub mod Moving
pub mod MovingLaws
pub mod FreemapLaws
pub mod AllocLaws
pub mod RoundTrip
pub mod Examples
