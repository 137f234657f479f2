-- ===== src/Vma.antt =====
-- kernel/mm/vma.c and kernel/mm/vma.h: the table of memory areas of a process.
pub mod Area
pub mod Table
pub mod Process
pub mod Ranges
pub mod View
pub mod Merge
pub mod Cut
pub mod Growth
pub mod Unmap
pub mod Protect
pub mod Coverage
pub mod Insert
pub mod Mapping
pub mod Gap
pub mod Fresh
mod Tests
