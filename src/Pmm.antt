-- ===== src/Pmm.antt =====
-- kernel/mm/pmm_core.c: the bitmap and reference counts of physical pages.
pub mod Bits
pub mod Core
pub mod Inv
pub mod Init
pub mod Alloc
pub mod Refs
pub mod Count
mod Tests
