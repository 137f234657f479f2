-- ===== src/Blk.antt =====
-- kernel/drivers/blkdev.c and kernel/drivers/blkdev_part.c: block devices and their partitions.
pub mod Table
pub mod Slots
pub mod Inside
pub mod Names
pub mod Sectors
mod Tests
