-- ===== src/Vma/Gap.antt =====
-- The top-down search finds the highest free gap, and mapping it disturbs no other address.
use drunix_os.Base.{
  ℕ, ◌+◌, ◌-◌, ◌%◌, ◌≤◌, ◌<◌, ◌≡◌, refl, inl, inr, true, ◌&&◌, some, List, [], ◌∷◌, arith, ltb, leb,
  Bool-cases, reverse_onto,
}
use drunix_os.Vma.Area.{VmArea, overlaps}
use drunix_os.Vma.Table.{all_clear, range_is_free}
use drunix_os.Vma.View.{OrderedIn, EndsBy, EndsBy-weaken}
use drunix_os.Vma.Mapping.{page_align_up, page_align_down, gap_start, scan, hint_fits, search}

-- The lowest address at which rounding up to a page would wrap.
abbrev pub last_page : ℕ
last_page = 0xfffff000

reverse_onto-EndsBy :
    (lo hi : ℕ) (vs dst : List VmArea)
    → OrderedIn lo hi vs
    → EndsBy lo dst
    → EndsBy hi (reverse_onto vs dst)
reverse_onto-EndsBy lo hi [] dst h d = EndsBy-weaken lo hi dst h d
reverse_onto-EndsBy lo hi (v ∷ vs) dst h d =
    reverse_onto-EndsBy v.end hi vs (v ∷ dst) h.2
      (omega arith, h.1, EndsBy-weaken lo v.start dst h.0 d)

all_clear-reverse_onto :
    (vs ys : List VmArea) (start end : ℕ)
    → all_clear (reverse_onto vs ys) start end ≡ (all_clear vs start end && all_clear ys start end)
unfolding all_clear
all_clear-reverse_onto [] ys start end = refl
all_clear-reverse_onto (v ∷ vs) ys start end =
    ground (arith, all_clear-reverse_onto vs (v ∷ ys) start end)

all_clear_past :
    (hi : ℕ) (vs : List VmArea) (start end : ℕ)
    → EndsBy hi vs
    → hi ≤ start
    → all_clear vs start end ≡ true
unfolding all_clear overlaps
all_clear_past hi [] start end h p = refl
all_clear_past hi (v ∷ vs) start end h p = ground (arith, all_clear_past v.start vs start end h.2)

module _ (low len : ℕ) (proper : 0 < len) where
  scan_sound :
      (hi scan_end r : ℕ) (vs : List VmArea)
      → EndsBy hi vs
      → hi ≤ last_page
      → scan low len scan_end vs ≡ some r
      → (low ≤ r) × (r + len ≤ scan_end) × (all_clear vs r (r + len) ≡ true)
  unfolding scan all_clear overlaps gap_start page_align_up page_align_down
  scan_sound hi scan_end r [] h bound e = ground arith
  scan_sound hi scan_end r (v ∷ vs) h bound e = ground (
    arith,
    scan_sound v.start scan_end r vs h.2,
    scan_sound v.start (page_align_down v.start) r vs h.2,
    all_clear_past v.start vs r (r + len) h.2,
  )

  -- Any free gap that starts on a page is found, or a higher one.
  scan_topmost :
      (hi scan_end a : ℕ) (vs : List VmArea)
      → EndsBy hi vs
      → hi ≤ last_page
      → low ≤ a
      → a + len ≤ scan_end
      → a % 4096 ≡ 0
      → len % 4096 ≡ 0
      → all_clear vs a (a + len) ≡ true
      → (r : ℕ) × (scan low len scan_end vs ≡ some r) × (a ≤ r)
  unfolding scan all_clear overlaps gap_start page_align_up page_align_down
  scan_topmost hi scan_end a [] h bound la ae aligned whole free =
      (scan_end - len, ground arith, omega arith)
  scan_topmost hi scan_end a (v ∷ vs) h bound la ae aligned whole free =
      elim (Bool-cases (leb scan_end v.start)) [
        | inl above ↦
            let (r, found, top) =
              scan_topmost v.start scan_end a vs h.2 (omega arith) la ae aligned whole
                (ground arith) in
            (r, ground arith, top)
        | inr under ↦
            elim (Bool-cases
              (ltb (gap_start low v) scan_end && leb len (scan_end - gap_start low v))) [
                | inl fits ↦ (scan_end - len, ground arith, omega arith)
                | inr small ↦
                    let (r, found, top) =
                      scan_topmost v.start (page_align_down v.start) a vs h.2 (omega arith) la
                        (ground arith) aligned whole (ground arith) in
                    (r, ground arith, top)
              ]
      ]

-- What the search finds lies between its bounds and meets no area.
pub search_sound :
    (areas : List VmArea) (low high hint len hi r : ℕ)
    → OrderedIn 0 hi areas
    → hi ≤ last_page
    → high ≤ last_page
    → 0 < len
    → search areas low high hint len ≡ some r
    → (low ≤ r) × (r + len ≤ high) × (range_is_free areas r (r + len) ≡ true)
unfolding search hint_fits range_is_free
search_sound areas low high hint len hi r h bound top proper e =
    let top_first = reverse_onto-EndsBy 0 hi areas [] h tt in
    ground (
      arith,
      scan_sound low len proper hi high r (reverse_onto areas []) top_first bound,
      all_clear-reverse_onto areas [] r (r + len),
    )

-- Without a hint it finds an address wherever some page-aligned one is free, and none is higher.
pub search_topmost :
    (areas : List VmArea) (low high len hi a : ℕ)
    → OrderedIn 0 hi areas
    → hi ≤ last_page
    → low ≤ a
    → a + len ≤ high
    → a % 4096 ≡ 0
    → len % 4096 ≡ 0
    → range_is_free areas a (a + len) ≡ true
    → (r : ℕ) × (search areas low high 0 len ≡ some r) × (a ≤ r)
unfolding search hint_fits range_is_free all_clear
search_topmost areas low high len hi a h bound la ae aligned whole free =
    let top_first = reverse_onto-EndsBy 0 hi areas [] h tt in
    let (r, found, above) =
      scan_topmost low len (ground arith) hi high a (reverse_onto areas []) top_first bound la ae
        aligned whole (ground (arith, all_clear-reverse_onto areas [] a (a + len))) in
    (r, ground arith, above)
