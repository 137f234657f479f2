-- ===== src/Pmm/Inv.antt =====
-- The bitmap and the reference counts of kernel/mm/pmm_core.c agree, whatever calls are made.
use drunix_os.Base.{
  ℕ, zero, suc, ◌+◌, ◌-◌, ◌*◌, ◌/◌, ◌%◌, ◌≤◌, ◌<◌, ◌≡◌, refl, ◌∙◌, inl, inr, Bool, true, false, not,
  ◌&&◌, ◌||◌, List, [], ◌∷◌, arith, ltb, leb, ◌==◌, if◌then◌else◌, Bool-cases, length, get_or, set,
  length-set, get_or-set_self, get_or-set_ne,
}
use drunix_os.Pmm.Bits.{
  byte_set, byte_clear, bit_at-byte_set, byte_set-lt, bit_at-byte_clear, byte_clear-lt,
}
use drunix_os.Pmm.Core.{
  PmmState, PmmRange, page_size, bitmap_set, bitmap_clear, bitmap_test, set_ref, ref, mark_page,
  mark_pages, mark_range, mark_ranges,
}

-- The arrays have the sizes that `pmm_core_bitmap_bytes` and `pmm_core_refcount_bytes` give, they
-- hold bytes, and a page is marked used exactly if it has a reference.
pub record IsValid (s : PmmState) : Type 0 where
  pub bitmap_size : s.max_pages ≤ 8 * length s.bitmap
  pub refcounts_size : length s.refcounts ≡ s.max_pages
  pub bitmap_byte : (i : ℕ) → get_or s.bitmap i 0 < 256
  pub refcounts_byte : (i : ℕ) → ref s i < 256
  pub agree : (page : ℕ) → page < s.max_pages → bitmap_test s page ≡ not (ref s page == 0)

pub get_or_update :
    (xs : List ℕ) (i j v : ℕ)
    → i < length xs
    → get_or (set xs i v) j 0 ≡ (if i == j then v else get_or xs j 0)
get_or_update xs i j v h = ground (arith, get_or-set_self xs i v 0, get_or-set_ne xs i j v 0)

-- The laws of one page's bit.
module _ (s : PmmState) (v : IsValid s) (page : ℕ) (within : page < s.max_pages) where
  index_within : page / 8 < length s.bitmap
  index_within = omega (arith, v.bitmap_size)

  pub bitmap_test-bitmap_set :
      (q : ℕ) → bitmap_test (bitmap_set s page) q ≡ ((page == q) || bitmap_test s q)
  unfolding bitmap_set bitmap_test
  bitmap_test-bitmap_set q =
      let b = get_or s.bitmap (page / 8) 0 in
      ground (
        arith,
        get_or_update s.bitmap (page / 8) (q / 8) (byte_set b (page % 8)) index_within,
        bit_at-byte_set b (page % 8) (q % 8) (v.bitmap_byte (page / 8)) (omega arith) (omega arith),
      )

  pub bitmap_test-bitmap_clear :
      (q : ℕ) → bitmap_test (bitmap_clear s page) q ≡ (not (page == q) && bitmap_test s q)
  unfolding bitmap_clear bitmap_test
  bitmap_test-bitmap_clear q =
      let b = get_or s.bitmap (page / 8) 0 in
      ground (
        arith,
        get_or_update s.bitmap (page / 8) (q / 8) (byte_clear b (page % 8)) index_within,
        bit_at-byte_clear b (page % 8) (q % 8) (v.bitmap_byte (page / 8)) (omega arith)
            (omega arith),
      )

  set-byte : (i : ℕ) → get_or (bitmap_set s page).bitmap i 0 < 256
  unfolding bitmap_set
  set-byte i =
      let b = get_or s.bitmap (page / 8) 0 in
      ground (
        arith,
        get_or_update s.bitmap (page / 8) i (byte_set b (page % 8)) index_within,
        byte_set-lt b (page % 8) 0 (v.bitmap_byte (page / 8)) (omega arith) (omega arith),
        v.bitmap_byte i,
      )

  clear-byte : (i : ℕ) → get_or (bitmap_clear s page).bitmap i 0 < 256
  unfolding bitmap_clear
  clear-byte i =
      let b = get_or s.bitmap (page / 8) 0 in
      ground (
        arith,
        get_or_update s.bitmap (page / 8) i (byte_clear b (page % 8)) index_within,
        byte_clear-lt b (page % 8) 0 (v.bitmap_byte (page / 8)) (omega arith) (omega arith),
        v.bitmap_byte i,
      )

  pub ref-set_ref :
      (count q : ℕ) → ref (set_ref s page count) q ≡ (if page == q then count else ref s q)
  ref-set_ref count q = get_or_update s.refcounts page q count (omega (arith, v.refcounts_size))

  ref-byte : (count : ℕ) → count < 256 → (i : ℕ) → ref (set_ref s page count) i < 256
  ref-byte count byte i = ground (arith, ref-set_ref count i, v.refcounts_byte i)

  -- The writes of a bit with its count, in the three ways the code makes them.
  pub use_page-IsValid :
      (count : ℕ) → 0 < count → count < 256 → IsValid (set_ref (bitmap_set s page) page count)
  unfolding bitmap_set bitmap_test
  use_page-IsValid count pos byte = record {
    bitmap_size = omega (
      arith,
      v.bitmap_size,
      length-set s.bitmap (page / 8) (byte_set (get_or s.bitmap (page / 8) 0) (page % 8)),
    );
    refcounts_size = omega (arith, v.refcounts_size, length-set s.refcounts page count);
    bitmap_byte = set-byte;
    refcounts_byte = ref-byte count byte;
    agree = λ q h. ground (arith, bitmap_test-bitmap_set q, ref-set_ref count q, v.agree q h);
  }

  pub drop_page-IsValid : IsValid (set_ref (bitmap_clear s page) page 0)
  unfolding bitmap_clear bitmap_test
  drop_page-IsValid = record {
    bitmap_size = omega (
      arith,
      v.bitmap_size,
      length-set s.bitmap (page / 8) (byte_clear (get_or s.bitmap (page / 8) 0) (page % 8)),
    );
    refcounts_size = omega (arith, v.refcounts_size, length-set s.refcounts page 0);
    bitmap_byte = clear-byte;
    refcounts_byte = ref-byte 0 (omega arith);
    agree = λ q h. ground (arith, bitmap_test-bitmap_clear q, ref-set_ref 0 q, v.agree q h);
  }

  pub recount_page-IsValid :
      (count : ℕ) → 0 < ref s page → 0 < count → count < 256 → IsValid (set_ref s page count)
  unfolding bitmap_test
  recount_page-IsValid count held pos byte = record {
    bitmap_size = v.bitmap_size;
    refcounts_size = omega (arith, v.refcounts_size, length-set s.refcounts page count);
    bitmap_byte = v.bitmap_byte;
    refcounts_byte = ref-byte count byte;
    agree = λ q h. ground (arith, ref-set_ref count q, v.agree q h, v.agree page within);
  }

mark_page-IsValid :
    (used : Bool) (s : PmmState) (page : ℕ)
    → IsValid s
    → page < s.max_pages
    → IsValid (mark_page used s page)
unfolding mark_page
mark_page-IsValid true s page v h = use_page-IsValid s v page h 0xff (omega arith) (omega arith)
mark_page-IsValid false s page v h = drop_page-IsValid s v page h

max_pages-mark_page :
    (used : Bool) (s : PmmState) (page : ℕ) → (mark_page used s page).max_pages ≡ s.max_pages
unfolding mark_page bitmap_set bitmap_clear
max_pages-mark_page true s page = refl
max_pages-mark_page false s page = refl

mark_pages-IsValid :
    (used : Bool) (rounds : ℕ) (s : PmmState) (page : ℕ)
    → IsValid s
    → page + rounds ≤ s.max_pages
    → IsValid (mark_pages used rounds s page)
unfolding mark_pages
mark_pages-IsValid used zero s page v h = v
mark_pages-IsValid used (suc rounds) s page v h =
    mark_pages-IsValid used rounds (mark_page used s page) (page + 1)
      (mark_page-IsValid used s page v (omega arith))
      (omega (arith, max_pages-mark_page used s page))

-- `pmm_core_mark_used` and `pmm_core_mark_free` keep the arrays in step.
pub mark_range-IsValid :
    (used : Bool) (s : PmmState) (range : PmmRange) → IsValid s → IsValid (mark_range used s range)
unfolding mark_range
mark_range-IsValid used s range v =
    let start_page = range.base / page_size in
    let past = (range.base + range.length + page_size - 1) / page_size in
    let end_page = if ltb s.max_pages past then s.max_pages else past in
    elim (Bool-cases (leb end_page start_page)) [
      | inl empty ↦ ground (arith, mark_pages-IsValid used 0 s start_page v)
      | inr some_pages ↦
          ground (arith, mark_pages-IsValid used (end_page - start_page) s start_page v)
    ]

pub mark_ranges-IsValid :
    (used : Bool) (s : PmmState) (ranges : List PmmRange)
    → IsValid s
    → IsValid (mark_ranges used s ranges)
unfolding mark_ranges
mark_ranges-IsValid used s [] v = v
mark_ranges-IsValid used s (range ∷ ranges) v =
    mark_ranges-IsValid used (mark_range used s range) ranges (mark_range-IsValid used s range v)

max_pages-mark_pages :
    (used : Bool) (rounds : ℕ) (s : PmmState) (page : ℕ)
    → (mark_pages used rounds s page).max_pages ≡ s.max_pages
unfolding mark_pages
max_pages-mark_pages used zero s page = refl
max_pages-mark_pages used (suc rounds) s page =
    max_pages-mark_pages used rounds (mark_page used s page) (page + 1)
    ∙ max_pages-mark_page used s page

pub max_pages-mark_range :
    (used : Bool) (s : PmmState) (range : PmmRange)
    → (mark_range used s range).max_pages ≡ s.max_pages
unfolding mark_range
max_pages-mark_range used s range =
    let start_page = range.base / page_size in
    let past = (range.base + range.length + page_size - 1) / page_size in
    let end_page = if ltb s.max_pages past then s.max_pages else past in
    ground (arith, max_pages-mark_pages used (end_page - start_page) s start_page)

pub max_pages-mark_ranges :
    (used : Bool) (s : PmmState) (ranges : List PmmRange)
    → (mark_ranges used s ranges).max_pages ≡ s.max_pages
unfolding mark_ranges
max_pages-mark_ranges used s [] = refl
max_pages-mark_ranges used s (range ∷ ranges) =
    max_pages-mark_ranges used (mark_range used s range) ranges ∙ max_pages-mark_range used s range
