-- ===== src/Pty.antt =====
-- kernel/proc/pty.c: pseudo-terminal pairs, each of two rings of bytes.
pub mod Ring
pub mod Pool
pub mod Fifo
pub mod History
pub mod Life
pub mod Trip
mod Tests
