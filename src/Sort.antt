-- ===== src/Sort.antt =====
-- kernel/lib/ksort.c: heap sort in place.
pub mod Heap
pub mod Shuffle
pub mod Sift
pub mod Sorted
pub mod Tests
