-- ===== src/Tty.antt =====
-- kernel/drivers/tty.c: the line discipline of the terminals.
pub mod Line
pub mod View
pub mod Keys
pub mod Reads
pub mod Rounds
pub mod Table
pub mod Lines
pub mod Tests
