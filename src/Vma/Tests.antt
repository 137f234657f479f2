-- ===== src/Vma/Tests.antt =====
-- The area table at a concrete process: runs of the operations, and instances of the theorems.
use drunix_os.Base.{
  ℕ, ◌+◌, ◌^◌, ◌≤◌, ◌<◌, ◌≡◌, ◌⊎◌, refl, true, none, some, List, [], ◌∷◌, arith, if◌then◌else◌,
}
use drunix_os.Vma.Area.{
  kind_stack, VmArea, FileRef, overlaps, slice, is_file_backed, can_merge, replace_prot_flags,
  kind_generic,
}
use drunix_os.Vma.Table.{
  append_area, append_each, insert_sorted, coalesce, coalesce_loop, coalesce_step, find_kind,
  all_clear, range_is_free,
}
use drunix_os.Vma.Process.{
  Process, done, failed, table, ensure_capacity, place, insert_area, add, plain_area, grow_capacity,
  growth_fuel, spinning, grown,
}
use drunix_os.Vma.Ranges.{
  one_if, unmap_pieces, unmap_count, unmap_build, unmap_range, reprotect, protect_pieces,
  protect_count, protect_build, protect_range,
}
use drunix_os.Vma.View.{attr_at, view, covers, OrderedIn}
use drunix_os.Vma.Growth.{grow_capacity_total, grow_capacity_spins}
use drunix_os.Vma.Unmap.{erase, unmap_range-view}
use drunix_os.Vma.Protect.{recolour, protect_range-view}
use drunix_os.Vma.Coverage.{Mapped}
use drunix_os.Vma.Insert.{insert_area-view}
use drunix_os.Vma.Mapping.{
  page_align_up, page_align_down, x86_mmap_min, stack_guard_gap, search_low, search_high, gap_start,
  scan, hint_fits, search, find_topdown_gap, file_area, map_anonymous, map_file_private,
}
use drunix_os.Vma.Fresh.{Maps, find_topdown_gap_sound, map_anonymous-Maps, find_topdown_gap_topmost}

abbrev top : ℕ
top = 0xc0000000

abbrev image : VmArea
image = plain_area 0x8048000 0x8050000 5 3

abbrev heap : VmArea
heap = plain_area 0x8050000 0x8051000 3 1

-- four pages, readable and writable, anonymous and private
abbrev buffer : VmArea
buffer = plain_area 0x40000000 0x40004000 27 0

abbrev stack : VmArea
stack = plain_area 0xbffc0000 0xc0000000 35 2

abbrev space : List VmArea → Process
space areas = record {
  space = some (record { vmas = areas; vma_capacity = 32; brk = 0x8051000 });
  vmas = [];
  brk = 0;
}

abbrev small : Process
small = space (image ∷ heap ∷ buffer ∷ stack ∷ [])

abbrev holed : Process
holed = space (
    image
    ∷ heap
    ∷ plain_area 0x40000000 0x40001000 27 0
    ∷ plain_area 0x40002000 0x40004000 27 0
    ∷ stack
    ∷ [])

abbrev guarded : Process
guarded = space (
    image
    ∷ heap
    ∷ plain_area 0x40000000 0x40001000 27 0
    ∷ plain_area 0x40001000 0x40002000 25 0
    ∷ plain_area 0x40002000 0x40004000 27 0
    ∷ stack
    ∷ [])

unmap_hole : unmap_range true true small 0x40001000 0x40002000 ≡ (done, holed)
unfolding unmap_range unmap_count unmap_build unmap_pieces overlaps slice is_file_backed append_each
    append_area can_merge ensure_capacity one_if
unmap_hole = refl

protect_page : protect_range true true small 0x40001000 0x40002000 1 ≡ (done, guarded)
unfolding protect_range protect_count protect_build protect_pieces reprotect replace_prot_flags
    overlaps slice is_file_backed append_each append_area can_merge ensure_capacity one_if
protect_page = refl

fill_hole : add true holed 0x40001000 0x40002000 27 0 ≡ (done, small)
unfolding add insert_area place insert_sorted coalesce coalesce_loop coalesce_step overlaps
    is_file_backed can_merge ensure_capacity
fill_hole = refl

-- The stack area is not generic.
unmap_stack : unmap_range true true small 0xbffc0000 0xc0000000 ≡ (failed, small)
unfolding unmap_range unmap_count overlaps
unmap_stack = refl

map_below_stack : find_topdown_gap x86_mmap_min small 0 0x1800 ≡ some 0xbfebe000
unfolding find_topdown_gap find_kind page_align_up page_align_down search_low search_high search
    hint_fits scan gap_start
map_below_stack = refl

abbrev mapped : Process
mapped = space (image ∷ heap ∷ buffer ∷ plain_area 0xbfebe000 0xbfec0000 27 0 ∷ stack ∷ [])

map_two_pages : map_anonymous x86_mmap_min true small 0 0x1800 27 ≡ (done, mapped, some 0xbfebe000)
unfolding map_anonymous find_topdown_gap find_kind page_align_up page_align_down search_low
    search_high search hint_fits scan gap_start add insert_area place insert_sorted coalesce
    coalesce_loop coalesce_step overlaps is_file_backed can_merge ensure_capacity
map_two_pages = refl

abbrev library_file : FileRef
library_file = record { mount_id = 1; inode_num = 7 }

abbrev library : Process
library = space (
    image
    ∷ heap
    ∷ buffer
    ∷ file_area 0xbfebe000 0xbfec0000 17 library_file 0x1000 0x1800
    ∷ stack
    ∷ [])

map_library :
    map_file_private x86_mmap_min true small 0 0x1800 17 library_file 0x1000 0x1800
    ≡ (done, library, some 0xbfebe000)
unfolding map_file_private find_topdown_gap find_kind page_align_up page_align_down search_low
    search_high search hint_fits scan gap_start insert_area place insert_sorted coalesce
    coalesce_loop coalesce_step overlaps is_file_backed can_merge ensure_capacity
map_library = refl

small-OrderedIn : OrderedIn 0 top (table small)
small-OrderedIn = omega arith

unmap_range-view_example :
    OrderedIn 0 top (table holed)
    × ((a : ℕ) → view (table holed) a ≡ erase 0x40001000 0x40002000 a (view (table small) a))
unmap_range-view_example =
    unmap_range-view true true small holed 0x40001000 0x40002000 top small-OrderedIn unmap_hole

protect_range-view_example :
    OrderedIn 0 top (table guarded)
    × ((a : ℕ) → view (table guarded) a ≡ recolour 0x40001000 0x40002000 1 a (view (table small) a))
protect_range-view_example =
    protect_range-view true true small guarded 0x40001000 0x40002000 1 top small-OrderedIn
      protect_page

buffer-Mapped : (a : ℕ) → 0x40001000 ≤ a → a < 0x40002000 → Mapped (table small) a
unfolding view attr_at
buffer-Mapped a p q = (attr_at buffer a, ground arith, refl)

room_left : (n : ℕ) → n ≤ 6 → (ensure_capacity true small n).0 ≡ done
unfolding ensure_capacity
room_left n h = ground arith

holed-OrderedIn : OrderedIn 0 top (table holed)
holed-OrderedIn = omega arith

abbrev page : VmArea
page = plain_area 0x40001000 0x40002000 27 0

fill_page : insert_area true holed page ≡ (done, small)
unfolding insert_area place insert_sorted coalesce coalesce_loop coalesce_step overlaps
    is_file_backed can_merge ensure_capacity
fill_page = refl

insert_area-view_example :
    OrderedIn 0 top (table small)
    × ((a : ℕ)
        → view (table small) a
          ≡ (if covers page a then some (attr_at page a) else view (table holed) a))
insert_area-view_example =
    insert_area-view true holed small page top holed-OrderedIn (omega arith) (omega arith) fill_page

grow_capacity_total_example : (c : ℕ) × (grow_capacity 27 (2 ^ 5) 100 ≡ grown c) × (100 ≤ c)
grow_capacity_total_example = grow_capacity_total 26 5 100 (omega arith) refl

grow_capacity_spins_example : grow_capacity growth_fuel 0x80000000 0x80000001 ≡ spinning
grow_capacity_spins_example = grow_capacity_spins growth_fuel 0x80000001 (omega arith)

find_topdown_gap_sound_example :
    ((a : ℕ) → 0xbfebe000 ≤ a → a < 0xbfebe000 + page_align_up 0x1800 → view (table small) a ≡ none)
    × (x86_mmap_min ≤ 0xbfebe000)
    × (page_align_up 0x8051000 ≤ 0xbfebe000)
    × ((v : VmArea) × (find_kind (table small) kind_stack ≡ some v)
        × (0xbfebe000 + page_align_up 0x1800 ≤ v.start)
        × ((0xbfebe000 + page_align_up 0x1800 + stack_guard_gap ≤ v.start)
            ⊎ (v.start ≤ stack_guard_gap)))
find_topdown_gap_sound_example =
    find_topdown_gap_sound x86_mmap_min small 0 0x1800 top 0xbfebe000 small-OrderedIn (omega arith)
      map_below_stack

map_anonymous-Maps_example :
    Maps top small
      (plain_area 0xbfebe000 (0xbfebe000 + page_align_up 0x1800) 27 kind_generic)
      mapped
map_anonymous-Maps_example =
    map_anonymous-Maps x86_mmap_min true small mapped 0 0x1800 27 top 0xbfebe000 small-OrderedIn
      (omega arith) map_two_pages

-- The page at 0x50000000 is free, so something at or above it is found.
find_topdown_gap_topmost_example :
    (r : ℕ) × (find_topdown_gap x86_mmap_min small 0 0x1000 ≡ some r) × (0x50000000 ≤ r)
unfolding find_kind page_align_up search_low search_high range_is_free all_clear overlaps
find_topdown_gap_topmost_example =
    find_topdown_gap_topmost x86_mmap_min small 0x1000 top 0x50000000 stack small-OrderedIn
      (omega arith) refl (omega arith) (omega arith) (omega arith) (omega arith) refl refl
