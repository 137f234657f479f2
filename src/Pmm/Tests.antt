-- ===== src/Pmm/Tests.antt =====
-- The page allocator on a small machine: runs, and instances of the theorems.
use drunix_os.Base.{◌≡◌, refl, ◌⊎◌, List, [], ◌∷◌, ◌++◌, arith, replicate}
use drunix_os.Pmm.Bits.{byte_set, byte_clear, bit_at}
use drunix_os.Pmm.Core.{
  PmmState, PmmRange, has_storage, bitmap_bytes, bitmap_set, bitmap_clear, bitmap_test, mark_page,
  mark_pages, mark_range, mark_ranges, init, scan_bits, scan_bytes, alloc_page, count_free,
  free_page_count,
}
use drunix_os.Pmm.Inv.{IsValid}
use drunix_os.Pmm.Init.{init-IsValid}
use drunix_os.Pmm.Alloc.{Exhausted, Allocated, alloc_page_lowest}
use drunix_os.Pmm.Refs.{allocs, increfs, frees, run, run-init-IsValid}

-- Twelve pages, and arrays of the right size with nothing in them yet.
abbrev unbound : PmmState
unbound = record { bitmap = 7 ∷ 7 ∷ []; refcounts = replicate 12 3; max_pages = 12 }

abbrev usable : List PmmRange
usable = record { base = 0x8000; length = 0x3800 } ∷ []

abbrev reserved : List PmmRange
reserved = record { base = 0x8000; length = 1 } ∷ []

-- Pages 9 to 11 are free.
start : PmmState
start = init unbound usable reserved

start_state : start ≡ record {
  bitmap = 0xff ∷ 0xf1 ∷ [];
  refcounts = replicate 9 0xff ++ replicate 3 0;
  max_pages = 12;
}
unfolding start init mark_ranges mark_range mark_pages mark_page bitmap_set bitmap_clear
    bitmap_bytes has_storage byte_set byte_clear
start_state = refl

first_page : (alloc_page start).0 ≡ 0x9000
unfolding start init mark_ranges mark_range mark_pages mark_page bitmap_set bitmap_clear
    bitmap_bytes has_storage byte_set byte_clear alloc_page scan_bytes scan_bits bit_at
first_page = refl

count_at_start : free_page_count start ≡ 3
unfolding start init mark_ranges mark_range mark_pages mark_page bitmap_set bitmap_clear
    bitmap_bytes has_storage byte_set byte_clear free_page_count count_free bitmap_test bit_at
count_at_start = refl

start-IsValid : IsValid start
unfolding start
start-IsValid = init-IsValid unbound usable reserved (omega arith) (omega arith)

start_size : start.max_pages ≡ 12
unfolding start init mark_ranges mark_range mark_pages mark_page bitmap_set bitmap_clear
    bitmap_bytes has_storage
start_size = refl

run-init-IsValid_example :
    IsValid (run (init unbound usable reserved) (allocs ∷ increfs 0x9000 ∷ frees 0x9000 ∷ []))
run-init-IsValid_example =
    run-init-IsValid unbound usable reserved (allocs ∷ increfs 0x9000 ∷ frees 0x9000 ∷ [])
      (omega arith) (omega arith)

alloc_page_lowest_example : Exhausted start (alloc_page start) ⊎ Allocated start (alloc_page start)
alloc_page_lowest_example =
    alloc_page_lowest start start-IsValid (omega (arith, start_size)) (omega (arith, start_size))
