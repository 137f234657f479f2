-- ===== src/Pmm/Init.antt =====
-- `pmm_core_init`: the state that it leaves, whatever the arrays held.
use drunix_os.Base.{
  ℕ, zero, suc, ◌+◌, ◌-◌, ◌*◌, ◌/◌, ◌%◌, ◌^◌, ◌≤◌, ◌<◌, ◌≡◌, Bool, true, false, not, ◌&&◌, List,
  arith, ltb, leb, ◌==◌, if◌then◌else◌, length, get_or, length-set, replicate, length-replicate,
  get_or-replicate,
}
use drunix_os.Pmm.Bits.{bit_at_full}
use drunix_os.Pmm.Core.{
  PmmState, PmmRange, page_size, has_storage, bitmap_bytes, bitmap_set, bitmap_clear, bitmap_test,
  ref, mark_page, mark_pages, mark_range, mark_ranges, init,
}
use drunix_os.Pmm.Inv.{get_or_update, IsValid, mark_ranges-IsValid}

abbrev pub blank : PmmState → PmmState
blank s = record s {
  bitmap = replicate (bitmap_bytes s.max_pages) 0xff;
  refcounts = replicate s.max_pages 0xff;
}

get_or-replicate_lt : (n a i : ℕ) → a < 256 → get_or (replicate n a) i 0 < 256
get_or-replicate_lt zero a i h = omega arith
get_or-replicate_lt (suc n) a zero h = h
get_or-replicate_lt (suc n) a (suc i) h = get_or-replicate_lt n a i h

blank-IsValid : (s : PmmState) → s.max_pages < 2 ^ 32 - 7 → IsValid (blank s)
unfolding bitmap_bytes bitmap_test
blank-IsValid s h =
    let bytes = bitmap_bytes s.max_pages in
    record {
      bitmap_size = omega (arith, length-replicate {A = ℕ} bytes 0xff);
      refcounts_size = length-replicate {A = ℕ} s.max_pages 0xff;
      bitmap_byte = λ i. get_or-replicate_lt bytes 0xff i (omega arith);
      refcounts_byte = λ i. get_or-replicate_lt s.max_pages 0xff i (omega arith);
      agree = λ page below. all_used page below;
    }
  where
    all_used :
        (page : ℕ) → page < s.max_pages → bitmap_test (blank s) page ≡ not (ref (blank s) page == 0)
    all_used page below = ground (
      arith,
      get_or-replicate {A = ℕ} (bitmap_bytes s.max_pages) (page / 8) 0xff 0 (omega arith),
      get_or-replicate {A = ℕ} s.max_pages page 0xff 0 below,
      bit_at_full (page % 8) (omega arith),
    )

-- After `pmm_core_init` the bitmap and the counts agree, whatever the arrays held and whatever
-- ranges are given.
pub init-IsValid :
    (s : PmmState) (usable reserved : List PmmRange)
    → 0 < s.max_pages
    → s.max_pages < 2 ^ 32 - 7
    → IsValid (init s usable reserved)
unfolding init has_storage
init-IsValid s usable reserved pos bound = ground (
  arith,
  mark_ranges-IsValid true (mark_ranges false (blank s) usable) reserved
      (mark_ranges-IsValid false (blank s) usable (blank-IsValid s bound)),
)

-- Whether the range meets the page.
abbrev pub meets : PmmRange → ℕ → Bool
meets r page =
    ltb 0 r.length && leb (r.base / page_size) page && ltb (page * page_size) (r.base + r.length)

abbrev pub pin : Bool → ℕ
pin true = 0xff
pin false = 0

mark_pages-ref :
    (used : Bool) (rounds : ℕ) (s : PmmState) (page q : ℕ)
    → page + rounds ≤ length s.refcounts
    → ref (mark_pages used rounds s page) q
      ≡ (if leb page q && ltb q (page + rounds) then pin used else ref s q)
unfolding mark_pages mark_page bitmap_set bitmap_clear
mark_pages-ref used zero s page q h = ground arith
mark_pages-ref true (suc rounds) s page q h = ground (
  arith,
  mark_pages-ref true rounds (mark_page true s page) (page + 1) q
      (omega (arith, length-set s.refcounts page 0xff)),
  get_or_update s.refcounts page q 0xff (omega arith),
)
mark_pages-ref false (suc rounds) s page q h = ground (
  arith,
  mark_pages-ref false rounds (mark_page false s page) (page + 1) q
      (omega (arith, length-set s.refcounts page 0)),
  get_or_update s.refcounts page q 0 (omega arith),
)

-- `pmm_core_mark_used` pins exactly the managed pages that the range meets, and
-- `pmm_core_mark_free` frees exactly those.
pub mark_range-ref :
    (used : Bool) (s : PmmState) (range : PmmRange) (q : ℕ)
    → IsValid s
    → q < s.max_pages
    → ref (mark_range used s range) q ≡ (if meets range q then pin used else ref s q)
unfolding mark_range has_storage
mark_range-ref used s range q v h =
    let start_page = range.base / page_size in
    let past = (range.base + range.length + page_size - 1) / page_size in
    let end_page = if ltb s.max_pages past then s.max_pages else past in
    ground (
      arith,
      v.refcounts_size,
      mark_pages-ref used (end_page - start_page) s start_page q,
      mark_pages-ref used 0 s start_page q,
    )
