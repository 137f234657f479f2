-- ===== src/Lib.antt =====
-- Verification library of the Drunix kernel.
--
-- The library models components of the kernel, each in a module with child modules, and states what
-- makes them correct. A C function is a function of the same name, with the prefix of its file left
-- off: it takes the state it changes and gives the new one beside its status. A loop is recursion on
-- the list it walks or on fuel, whose bound is given below. Numbers are naturals; the wrap-around of a
-- 32-bit value is written out wherever the source's value can leave its range.
--
-- Base         names of the standard library, Boolean tests, lists with natural indices
-- Ring         a window of a circular buffer, shared by the components that keep one
-- Chardev      kernel/drivers/chardev.c: the registry of character devices
--   Chardev/Table  its two functions, names as lists of bytes
-- Pipe         kernel/proc/pipe.c: the pool of pipes
--   Pipe/Pool      its three functions
-- Kstring      kernel/lib/kstring.c: the functions on memory and on strings
--   Kstring/Memory the functions, on addresses and bytes
--   Kstring/Text   the functions on strings, whose loops have their rounds as an argument
--   Kstring/Move, Copies, Fill, Compare, Strings   proofs, against moves and fills of whole blocks
-- Sort         kernel/lib/ksort.c: heap sort in place
--   Sort/Heap      the functions, on an array as a function of the index
--   Sort/Shuffle, Sift, Sorted   proofs
-- Vma          kernel/mm/vma.c, kernel/mm/vma.h, kernel/mm/vm_layout.h: the table of areas of a process
--   Vma/Area       vm_area_t, and the functions on one area
--   Vma/Table      the table as a list: coalescing, sorted insertion, lookup
--   Vma/Process    where the table lives, vma_ensure_capacity, vma_insert_area, vma_add, vma_find
--   Vma/Ranges     vma_unmap_range and vma_protect_range, each of two passes
--   Vma/Mapping    vma_find_topdown_gap, vma_map_anonymous, vma_map_file_private
--   Vma/View       the specification: what a table says of each address
--   Vma/Merge, Cut, Growth, Unmap, Protect, Coverage, Insert, Gap, Fresh   proofs
-- Pmm          kernel/mm/pmm_core.c: the bitmap and the reference counts of physical pages
--   Pmm/Bits       the operations on one bit of a byte, by arithmetic
--   Pmm/Core       pmm_core_state_t and all functions of the file
--   Pmm/Inv        the invariant: the bitmap marks the pages that have a reference
--   Pmm/Init, Alloc, Refs, Count   proofs
-- Pty          kernel/proc/pty.c: pseudo-terminals
--   Pty/Ring       pty_ring_t, the transfers of bytes
--   Pty/Pool       pty_t, the pool and the calls on its entries
--   Pty/Fifo, History   a ring as a queue, under any sequence of passes of writers and readers
--   Pty/Life       allocation and references
--   Pty/Trip       the way of the bytes from one end to the other
-- Tty          kernel/drivers/tty.c, kernel/drivers/tty.h: the line discipline of the terminals
--   Tty/Line       one terminal: keys, signals and reads; Tty/Table the calls by index
--   Tty/View       the specification: a line that is edited, and a queue of bytes
--   Tty/Keys, Reads, Rounds, Lines   proofs
-- Input        kernel/drivers/inputdev.c: the events of the keyboard and the mouse
--   Input/Ring     the event rings, which lose their oldest event when full
--   Input/Packet   what a key and a packet of the mouse put into the rings
--   Input/Newest   lists of the newest entries
--   Input/Queue, Refine, Report, Buttons, Pointer   the rings as queues, and what a reader learns from them
-- Blk          kernel/drivers/blkdev.c, kernel/drivers/blkdev_part.c: the registry of block devices
--   Blk/Table      all operations of the registry, and part_translate
--   Blk/Slots, Names, Inside, Sectors   free slots, lookups, and partitions inside their disks
-- Bcache       kernel/blk/bcache.c, kernel/blk/bcache.h: the cache of blocks above the devices
--   Bcache/Disk    the interface of the devices, Io and IsDisk, and the transfer of a block
--   Bcache/Cache   the slots, their order of use, and all operations; Cache/Slots the slots alone
--   Bcache/View    the specification: the block seen at a place, and when a cache is coherent
--   Bcache/Blocks, Change, Flush, Fill   what writes, changed slots and write-backs do to what is seen
--   Bcache/Hunt, Acquire   the search for a slot to reuse
--   Bcache/Access, Store, Through, Torn, Drop, Sync   the operations; a write through that fails is in Torn
--   Bcache/Bare    disks without a cache, and the calls in any order against them; Bcache/History what is read
--   Bcache/Order, Ring, Turned, Calls, Whole   the list of slots; Bcache/Turns, Progress when calls end
-- Commit       kernel/mm/commit.c: the pages promised to a process
--   Commit/Account, Admit   the functions, and what is admitted
--
-- A process keeps its table of areas in proc_address_space_t, or in process_t itself where it has no
-- address space (then it has 16 entries at most); both are modelled, and a table with its count is
-- the list of its entries. Addresses are 32-bit. A call of kmalloc is a Boolean argument of the
-- operation, which says whether the call gives a block: `memory` is that of vma_ensure_capacity,
-- `scratch` that of the rebuilt table. The product that is its argument is taken not to wrap. VM_MMAP_MIN
-- differs by architecture and is an argument of the search.
--
-- In a call that may sleep, the scheduler runs others. Such a call is modelled as a pass: it runs
-- until it returns or blocks, and gives what is left to do, with which the caller is woken and makes
-- the next pass. A history of passes is an indexed data type, so that writers and readers interleave
-- in any order.
--
-- Fuel: the loop that doubles a capacity in vma_ensure_capacity has 33 rounds, which are enough as
-- Vma.Growth.grow_capacity_total says, and more would not help where it says nothing; the outer loop
-- of pty_ring_write has two rounds a pass, since a round ends with the ring full or nothing left.
--
-- What a call at a terminal does outside of it, the output to the console, the signals and the waking of
-- readers, is a list of effects beside the new state. tty_read is modelled by the rounds of its loop; a
-- round may end asleep.
--
-- The loop of sift_down has its rounds as an argument, and gives nothing where they are used up: as many
-- as there are elements are enough, as Sort.Sorted.k_sort-IsSortOf says. The arrays and blocks of
-- kernel/lib are taken to lie below the end of the address space.
--
-- The search of acquire_slot has its rounds as an argument: as many as there are slots are enough where
-- Bcache.Progress.write_done says so, and no number is where Bcache.Progress.access_hangs says so. The
-- doubly linked list of slots is the list of their indices from the head; the number of slots is that
-- of the list, 64 in the source. A call of a device's operation is a field of Io, on a state of all
-- disks, and IsDisk says what the cache relies on in it. Callers name blocks by their first sector; a
-- set of places no two of which overlap, IsGrid, is what bcache.h asks of them.
--
-- An operations table of a block device is a pointer, told apart by its driver's number or its
-- partition's index; what a driver does is not part of the registry. The readings of the clock are
-- arguments where an event is put in, and so is the count of free pages where pages are promised.
--
-- Not modelled: null pointers, the contents of wait queues, the text fields of the structures, and all
-- components that are not named above.
pub mod Base
pub mod Chardev
pub mod Pipe
pub mod Kstring
pub mod Sort
pub mod Tty
pub mod Vma
pub mod Pmm
pub mod Ring
pub mod Pty
pub mod Input
pub mod Blk
pub mod Commit
pub mod Bcache
