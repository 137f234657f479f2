-- ===== src/Commit.antt =====
-- kernel/mm/commit.c: the pages that a process has promised to it.
pub mod Account
pub mod Admit
mod Tests
