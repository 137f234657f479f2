-- ===== src/Chardev.antt =====
-- kernel/drivers/chardev.c: the registry of character devices.
pub mod Table
pub mod Tests
