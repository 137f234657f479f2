-- ===== src/Kstring.antt =====
-- kernel/lib/kstring.c: copying, filling and comparing memory and strings.
pub mod Memory
pub mod Move
pub mod Copies
pub mod Fill
pub mod Compare
pub mod Text
pub mod Strings
pub mod Tests
