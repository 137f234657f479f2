-- ===== src/Vma/Mapping.antt =====
-- The top-down search of kernel/mm/vma.c for a free range, and the two operations that map it;
-- with the page rounding of kernel/mm/vm_layout.h.
use drunix_os.Base.{
  ℕ, ◌+◌, ◌-◌, ◌*◌, ◌/◌, ◌%◌, ◌^◌, Bool, not, ◌&&◌, Option, none, some, List, [], ◌∷◌, ltb, leb,
  ◌==◌, if◌then◌else◌, length, reverse_onto,
}
use drunix_os.Vma.Area.{VmArea, FileRef, kind_generic, kind_stack}
use drunix_os.Vma.Table.{find_kind, range_is_free}
use drunix_os.Vma.Process.{
  Process, Status, done, failed, hangs, table, current_brk, add, insert_area,
}

unfoldable pub page_align_down : ℕ → ℕ
page_align_down value = value / 4096 * 4096

unfoldable pub page_align_up : ℕ → ℕ
page_align_up value = if ltb (2 ^ 32 - 1 - 0xfff) value then 0 else (value + 0xfff) / 4096 * 4096

-- `VM_STACK_GUARD_GAP`
abbrev pub stack_guard_gap : ℕ
stack_guard_gap = 1024 * 1024

-- `VM_MMAP_MIN` on x86.
abbrev pub x86_mmap_min : ℕ
x86_mmap_min = 0x40000000

-- The bounds of the search. `mmap_min` is `VM_MMAP_MIN`, which differs by architecture.
unfoldable pub search_low : ℕ → Process → ℕ
search_low mmap_min p =
    if ltb (page_align_up (current_brk p)) mmap_min then mmap_min else page_align_up (current_brk p)

unfoldable pub search_high : VmArea → ℕ
search_high stack =
    if ltb stack_guard_gap stack.start then stack.start - stack_guard_gap else stack.start

-- Where a gap below an area would start.
unfoldable pub gap_start : ℕ → VmArea → ℕ
gap_start low vma = if ltb low vma.end then page_align_up vma.end else low

-- The loop over the areas from the highest down, and the test after it.
unfoldable pub scan : ℕ → ℕ → ℕ → List VmArea → Option ℕ
scan low len scan_end [] =
    if ltb low scan_end && leb len (scan_end - low) then some (scan_end - len) else none
scan low len scan_end (vma ∷ below) =
    let skip = scan low len scan_end below in
    let next = scan low len (page_align_down vma.start) below in
    if leb scan_end vma.start
    then skip
    else if ltb (gap_start low vma) scan_end && leb len (scan_end - gap_start low vma)
    then some (scan_end - len)
    else next

-- Whether the address that the caller hints at can be used.
unfoldable pub hint_fits : List VmArea → ℕ → ℕ → ℕ → ℕ → Bool
hint_fits areas low high hint len =
    not (hint == 0)
    && (hint % 4096 == 0)
    && leb low hint
    && ltb hint ((hint + len) % 2 ^ 32)
    && leb ((hint + len) % 2 ^ 32) high
    && range_is_free areas hint ((hint + len) % 2 ^ 32)

unfoldable pub search : List VmArea → ℕ → ℕ → ℕ → ℕ → Option ℕ
search areas low high hint len =
    if leb high low
    then none
    else if ltb (high - low) len
    then none
    else if hint_fits areas low high hint len
    then some hint
    else scan low len high (reverse_onto areas [])

unfoldable pub find_topdown_gap : ℕ → Process → ℕ → ℕ → Option ℕ
find_topdown_gap mmap_min p hint length =
    if length == 0
    then none
    else if page_align_up length == 0
    then none
    else elim (find_kind (table p) kind_stack) [
      | none ↦ none
      | some stack ↦
          search (table p) (search_low mmap_min p) (search_high stack) hint (page_align_up length)
    ]

-- A status, the process, and what is written through `addr_out`.
abbrev pub Reply : Type 0
Reply = Status × Process × Option ℕ

abbrev reply : Status × Process → ℕ → Reply
reply (done, p) start = (done, p, some start)
reply (failed, p) start = (failed, p, none)
reply (hangs, p) start = (hangs, p, none)

unfoldable pub map_anonymous : ℕ → Bool → Process → ℕ → ℕ → ℕ → Reply
map_anonymous mmap_min memory p hint length flags = elim (find_topdown_gap mmap_min p hint length) [
  | none ↦ (failed, p, none)
  | some start ↦
      reply (add memory p start ((start + page_align_up length) % 2 ^ 32) flags kind_generic) start
]

abbrev pub file_area : ℕ → ℕ → ℕ → FileRef → ℕ → ℕ → VmArea
file_area start end flags file_ref file_offset file_size = record {
  start = start;
  end = end;
  flags = flags;
  kind = kind_generic;
  file_offset = file_offset;
  file_size = file_size;
  file_ref = file_ref;
}

unfoldable pub map_file_private : ℕ → Bool → Process → ℕ → ℕ → ℕ → FileRef → ℕ → ℕ → Reply
map_file_private mmap_min memory p hint length flags file_ref file_offset file_size =
    elim (find_topdown_gap mmap_min p hint length) [
      | none ↦ (failed, p, none)
      | some start ↦
          reply
            (insert_area memory p (
              file_area start ((start + page_align_up length) % 2 ^ 32) flags file_ref file_offset
                file_size))
            start
    ]
