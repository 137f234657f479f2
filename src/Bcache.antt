-- ===== src/Bcache.antt =====
-- kernel/blk/bcache.c: the cache of blocks between the file systems and the block devices.
pub mod Disk
pub mod Cache
pub mod Blocks
pub mod View
pub mod Change
pub mod Flush
pub mod Hunt
pub mod Acquire
pub mod Fill
pub mod Access
pub mod Store
pub mod Through
pub mod Bare
pub mod Torn
pub mod Drop
pub mod Sync
pub mod Order
pub mod Turns
pub mod Ring
pub mod Turned
pub mod Calls
pub mod Progress
pub mod History
pub mod Whole
pub mod Tests
