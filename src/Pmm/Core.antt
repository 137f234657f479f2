-- ===== src/Pmm/Core.antt =====
-- The operations of kernel/mm/pmm_core.c. A `PmmState` whose storage is bound: its pointers are
-- not null, and the arrays are lists of bytes.
use drunix_os.Base.{
  ℕ, zero, suc, ◌+◌, ◌-◌, ◌*◌, ◌/◌, ◌%◌, ◌^◌, Bool, true, false, not, ◌||◌, Option, none, some,
  List, [], ◌∷◌, ltb, leb, ◌==◌, if◌then◌else◌, get_or, set, replicate,
}
use drunix_os.Pmm.Bits.{byte_set, byte_clear, bit_at}

-- `pmm_range_t`
pub record PmmRange : Type 0 where
  pub base : ℕ
  pub length : ℕ

-- `pmm_core_state_t`
pub record PmmState : Type 0 where
  pub bitmap : List ℕ
  pub refcounts : List ℕ
  pub max_pages : ℕ

abbrev pub page_size : ℕ
page_size = 4096

-- `pmm_core_has_storage` for arrays that are there
unfoldable pub has_storage : PmmState → Bool
has_storage s = ltb 0 s.max_pages

unfoldable pub bitmap_bytes : ℕ → ℕ
bitmap_bytes max_pages = (max_pages + 7) % 2 ^ 32 / 8

-- `pmm_core_refcount_bytes`: one byte for each page.
unfoldable pub refcount_bytes : ℕ → ℕ
refcount_bytes max_pages = max_pages

-- `pmm_core_bind_storage`, whose arrays become the state's.
unfoldable pub bind_storage : PmmState → List ℕ → List ℕ → ℕ → PmmState
bind_storage s bitmap refcounts max_pages = record {
  bitmap = bitmap;
  refcounts = refcounts;
  max_pages = max_pages;
}

unfoldable pub bitmap_set : PmmState → ℕ → PmmState
bitmap_set s page = record s {
  bitmap = set s.bitmap (page / 8) (byte_set (get_or s.bitmap (page / 8) 0) (page % 8));
}

unfoldable pub bitmap_clear : PmmState → ℕ → PmmState
bitmap_clear s page = record s {
  bitmap = set s.bitmap (page / 8) (byte_clear (get_or s.bitmap (page / 8) 0) (page % 8));
}

unfoldable pub bitmap_test : PmmState → ℕ → Bool
bitmap_test s page = bit_at (get_or s.bitmap (page / 8) 0) (page % 8)

abbrev pub set_ref : PmmState → ℕ → ℕ → PmmState
set_ref s page count = record s { refcounts = set s.refcounts page count }

abbrev pub ref : PmmState → ℕ → ℕ
ref s page = get_or s.refcounts page 0

-- One round of the loop of `pmm_core_mark_range`.
unfoldable pub mark_page : Bool → PmmState → ℕ → PmmState
mark_page true s page = set_ref (bitmap_set s page) page 0xff
mark_page false s page = set_ref (bitmap_clear s page) page 0

-- The loop, by the rounds that are left.
unfoldable pub mark_pages : Bool → ℕ → PmmState → ℕ → PmmState
mark_pages used zero s page = s
mark_pages used (suc rounds) s page = mark_pages used rounds (mark_page used s page) (page + 1)

unfoldable pub mark_range : Bool → PmmState → PmmRange → PmmState
mark_range used s range =
    let start_page = range.base / page_size in
    let past = (range.base + range.length + page_size - 1) / page_size in
    let end_page = if ltb s.max_pages past then s.max_pages else past in
    if not (has_storage s) || range.length == 0
    then s
    else if leb s.max_pages start_page
    then s
    else mark_pages used (end_page - start_page) s start_page

unfoldable pub mark_ranges : Bool → PmmState → List PmmRange → PmmState
mark_ranges used s [] = s
mark_ranges used s (range ∷ ranges) = mark_ranges used (mark_range used s range) ranges

-- The loops that fill the arrays run over all their bytes.
unfoldable pub init : PmmState → List PmmRange → List PmmRange → PmmState
init s usable reserved =
    if has_storage s
    then mark_ranges true
        (mark_ranges false
          (record s {
            bitmap = replicate (bitmap_bytes s.max_pages) 0xff;
            refcounts = replicate s.max_pages 0xff;
          })
          usable)
        reserved
    else s

-- How the loop over the bits of one byte ends: a return of 0, a free page, or the next byte.
pub data BitScan : Type 0 where
  stop : BitScan
  hit : ℕ → BitScan
  on : BitScan

unfoldable pub scan_bits : ℕ → ℕ → ℕ → ℕ → ℕ → BitScan
scan_bits zero byte i bit max_pages = on
scan_bits (suc rounds) byte i bit max_pages =
    let rest = scan_bits rounds byte i (bit + 1) max_pages in
    if leb max_pages (i * 8 + bit)
    then stop
    else if bit_at byte bit
    then rest
    else hit (i * 8 + bit)

unfoldable pub scan_bytes : List ℕ → ℕ → ℕ → Option ℕ
scan_bytes [] i max_pages = none
scan_bytes (byte ∷ bytes) i max_pages =
    let rest = scan_bytes bytes (i + 1) max_pages in
    if byte == 0xff
    then rest
    else elim (scan_bits 8 byte i 0 max_pages) [ stop ↦ none | hit page ↦ some page | on ↦ rest ]

-- The address returned, 0 for none, and the state.
unfoldable pub alloc_page : PmmState → ℕ × PmmState
alloc_page s =
    if has_storage s
    then elim (scan_bytes s.bitmap 0 s.max_pages) [
      | none ↦ (0, s)
      | some page ↦ (page * page_size % 2 ^ 32, set_ref (bitmap_set s page) page 1)
    ]
    else (0, s)

unfoldable pub incref : PmmState → ℕ → PmmState
incref s phys_addr =
    let page = phys_addr / page_size in
    let count = ref s page in
    if not (has_storage s) || leb s.max_pages page || count == 0xff
    then s
    else let marked = if count == 0 then bitmap_set s page else s in
      if ltb count 0xff then set_ref marked page (count + 1) else marked

unfoldable pub decref : PmmState → ℕ → PmmState
decref s phys_addr =
    let page = phys_addr / page_size in
    let count = ref s page in
    if not (has_storage s) || leb s.max_pages page || count == 0xff || count == 0
    then s
    else let dropped = set_ref s page (count - 1) in
      if count - 1 == 0 then bitmap_clear dropped page else dropped

unfoldable pub free_page : PmmState → ℕ → PmmState
unfolding decref
free_page s phys_addr = decref s phys_addr

unfoldable pub refcount : PmmState → ℕ → ℕ
refcount s phys_addr =
    if not (has_storage s) || leb s.max_pages (phys_addr / page_size)
    then 0
    else ref s (phys_addr / page_size)

-- The loop of `pmm_core_free_page_count` over the pages below `n`.
unfoldable pub count_free : PmmState → ℕ → ℕ
count_free s zero = 0
count_free s (suc n) = if bitmap_test s n then count_free s n else count_free s n + 1

unfoldable pub free_page_count : PmmState → ℕ
free_page_count s = if has_storage s then count_free s s.max_pages else 0
