-- ===== src/Pipe.antt =====
-- kernel/proc/pipe.c: the pool of pipes.
pub mod Pool
pub mod Tests
