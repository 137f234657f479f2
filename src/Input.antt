-- ===== src/Input.antt =====
-- kernel/drivers/inputdev.c: the event rings of the keyboard and the mouse.
pub mod Ring
pub mod Packet
pub mod Newest
pub mod Queue
pub mod Refine
pub mod Report
pub mod Buttons
pub mod Pointer
mod Tests
