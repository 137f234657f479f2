-- ===== src/Pmm/Alloc.antt =====
-- Allocation in kernel/mm/pmm_core.c gives the lowest free page; references come and go one by one.
use drunix_os.Base.{
  ℕ, zero, suc, ◌+◌, ◌-◌, ◌*◌, ◌/◌, ◌%◌, ◌^◌, ◌≤◌, ◌<◌, ◌≡◌, refl, ◌≢◌, ◌⊎◌, inl, inr, Bool, true,
  false, Option, none, some, List, [], ◌∷◌, arith, ℕ_discrete, ltb, leb, ◌==◌, if◌then◌else◌,
  Bool-cases, subst, length, get_or,
}
use drunix_os.Pmm.Bits.{bit_at, bit_at_full}
use drunix_os.Pmm.Core.{
  PmmState, page_size, has_storage, bitmap_set, bitmap_test, ref, BitScan, stop, hit, on, scan_bits,
  scan_bytes, alloc_page,
}
use drunix_os.Pmm.Inv.{IsValid, use_page-IsValid, ref-set_ref}

-- What a scan of the bits from `bit` on has seen.
abbrev Scanned : ℕ → ℕ → ℕ → ℕ → ℕ → BitScan → Type 0
Scanned byte i bit past max_pages stop =
    (max_pages ≤ i * 8 + past)
    × ((j : ℕ) → bit ≤ j → j < past → i * 8 + j < max_pages → bit_at byte j ≡ true)
Scanned byte i bit past max_pages on = (j : ℕ) → bit ≤ j → j < past → bit_at byte j ≡ true
Scanned byte i bit past max_pages (hit page) =
    (k : ℕ) × (page ≡ i * 8 + k)
    × (k < past)
    × (page < max_pages)
    × (bit_at byte k ≡ false)
    × ((j : ℕ) → bit ≤ j → j < k → bit_at byte j ≡ true)

scan_bits-Scanned :
    (rounds byte i bit past max_pages : ℕ)
    → bit + rounds ≡ past
    → Scanned byte i bit past max_pages (scan_bits rounds byte i bit max_pages)
unfolding scan_bits
scan_bits-Scanned zero byte i bit past max_pages e = λ j p q. absurd (omega arith)
scan_bits-Scanned (suc rounds) byte i bit past max_pages e =
    elim (Bool-cases (leb max_pages (i * 8 + bit))) [
      | inl over ↦ rw over (ground arith, λ j p q r. absurd (ground arith))
      | inr within ↦ elim (Bool-cases (bit_at byte bit)) [
        | inr free ↦
            rw (within, free)
              (bit, refl, omega arith, ground arith, free, λ j p q. absurd (omega arith))
        | inl used ↦
            rw (within, used)
              (later used (scan_bits rounds byte i (bit + 1) max_pages)
                (scan_bits-Scanned rounds byte i (bit + 1) past max_pages (omega arith)))
      ]
    ]
  where
    first_or_later : (P : ℕ → Type 0) (j : ℕ) → P bit → (bit + 1 ≤ j → P j) → bit ≤ j → P j
    first_or_later P j here there p = elim (ℕ_discrete bit j) [
      | yes same ↦ subst P same here
      | no other ↦ there (omega arith)
    ]

    later :
        bit_at byte bit ≡ true
        → (r : BitScan) → Scanned byte i (bit + 1) past max_pages r
        → Scanned byte i bit past max_pages r
    later used stop (past_all, seen) = (
      past_all,
      λ j p q r. first_or_later (λ j. bit_at byte j ≡ true) j used (λ p'. seen j p' q r) p,
    )
    later used on seen =
        λ j p q. first_or_later (λ j. bit_at byte j ≡ true) j used (λ p'. seen j p' q) p
    later used (hit page) (k, e', a, b, c, seen) = (
      k,
      e',
      a,
      b,
      c,
      λ j p q. first_or_later (λ j. bit_at byte j ≡ true) j used (λ p'. seen j p' q) p,
    )

-- The page at place `j` behind the first byte of the list.
abbrev used_at : List ℕ → ℕ → Bool
used_at bytes j = bit_at (get_or bytes (j / 8) 0) (j % 8)

used_at-cons :
    (byte : ℕ) (bytes : List ℕ) (j : ℕ)
    → used_at (byte ∷ bytes) j ≡ (if ltb j 8 then bit_at byte j else used_at bytes (j - 8))
used_at-cons byte bytes j = elim (Bool-cases (ltb j 8)) [
  | inl low ↦
      let z : j / 8 ≡ 0 = ground arith in let m : j % 8 ≡ j = ground arith in rw (z, m, low) refl
  | inr high ↦
      let z : j / 8 ≡ suc ((j - 8) / 8) = ground arith in
      let m : j % 8 ≡ (j - 8) % 8 = ground arith in rw (z, m, high) refl
]

-- What the loop over the bytes finds: the lowest page that is not used, if there is one.
abbrev Lowest : List ℕ → ℕ → ℕ → Option ℕ → Type 0
Lowest bytes i max_pages none =
    (j : ℕ) → j < 8 * length bytes → i * 8 + j < max_pages → used_at bytes j ≡ true
Lowest bytes i max_pages (some page) =
    (k : ℕ) × (page ≡ i * 8 + k)
    × (page < max_pages)
    × (used_at bytes k ≡ false)
    × ((j : ℕ) → j < k → used_at bytes j ≡ true)

-- A byte all of whose pages are used hands on what the rest of the bytes gives.
Lowest-cons :
    (byte : ℕ) (bytes : List ℕ) (i max_pages : ℕ) (r : Option ℕ)
    → ((j : ℕ) → j < 8 → bit_at byte j ≡ true)
    → Lowest bytes (i + 1) max_pages r
    → Lowest (byte ∷ bytes) i max_pages r
Lowest-cons byte bytes i max_pages none full rest =
    λ j p q. ground (arith, used_at-cons byte bytes j, full j, rest (j - 8))
Lowest-cons byte bytes i max_pages (some page) full (k, e, within, free, below) = (
  k + 8,
  omega arith,
  within,
  ground (arith, used_at-cons byte bytes (k + 8)),
  λ j p. ground (arith, used_at-cons byte bytes j, full j, below (j - 8)),
)

scan_bytes-Lowest :
    (bytes : List ℕ) (i max_pages : ℕ) → Lowest bytes i max_pages (scan_bytes bytes i max_pages)
unfolding scan_bytes
scan_bytes-Lowest [] i max_pages = λ j p q. absurd (omega arith)
scan_bytes-Lowest (byte ∷ bytes) i max_pages = elim (Bool-cases (byte == 0xff)) [
  | inl full ↦ rw full (
      Lowest-cons byte bytes i max_pages _ (λ j h. ground (arith, bit_at_full j h))
        (scan_bytes-Lowest bytes (i + 1) max_pages))
  | inr open_byte ↦ rw open_byte (
      choose (scan_bits 8 byte i 0 max_pages) (scan_bits-Scanned 8 byte i 0 8 max_pages refl)
        (scan_bytes-Lowest bytes (i + 1) max_pages))
]
  where
    choose :
        (r : BitScan)
        → Scanned byte i 0 8 max_pages r
        → Lowest bytes (i + 1) max_pages (scan_bytes bytes (i + 1) max_pages)
        → Lowest (byte ∷ bytes) i max_pages (elim r [
          | stop ↦ none
          | hit page ↦ some page
          | on ↦ scan_bytes bytes (i + 1) max_pages
        ])
    choose stop (past_all, seen) rest =
        λ j p q. ground (arith, used_at-cons byte bytes j, seen j (omega arith))
    choose on seen rest = Lowest-cons byte bytes i max_pages _ (λ j h. seen j (omega arith) h) rest
    choose (hit page) (k, e, small, within, free, below) rest = (
      k,
      e,
      within,
      ground (arith, used_at-cons byte bytes k),
      λ j p. ground (arith, used_at-cons byte bytes j, below j (omega arith) p),
    )

-- The physical addresses of the managed pages fit 32 bits.
abbrev pub max_managed : ℕ
max_managed = 2 ^ 20

-- No page has a reference left to give, and nothing changes.
abbrev pub Exhausted : PmmState → ℕ × PmmState → Type 0
Exhausted s r = (r ≡ (0, s)) × ((q : ℕ) → q < s.max_pages → ref s q ≢ 0)

-- The lowest page without a reference has one now, its address is returned, and no other count
-- changes.
abbrev pub Allocated : PmmState → ℕ × PmmState → Type 0
Allocated s r =
    (page : ℕ) × (page < s.max_pages)
    × (r.0 ≡ page * page_size)
    × (ref s page ≡ 0)
    × ((q : ℕ) → q < page → ref s q ≢ 0)
    × ((q : ℕ) → ref r.1 q ≡ (if page == q then 1 else ref s q))
    × IsValid r.1

-- `pmm_core_alloc_page` gives the lowest page without a reference, under one reference, and changes
-- no other count; only where every page has a reference does it give 0 and change nothing. The
-- bitmap and the counts keep agreeing.
pub alloc_page_lowest :
    (s : PmmState)
    → IsValid s
    → 0 < s.max_pages
    → s.max_pages ≤ max_managed
    → Exhausted s (alloc_page s) ⊎ Allocated s (alloc_page s)
unfolding alloc_page has_storage bitmap_test bitmap_set
alloc_page_lowest s v pos bound =
    choose (scan_bytes s.bitmap 0 s.max_pages) refl (scan_bytes-Lowest s.bitmap 0 s.max_pages)
  where
    used_page : (q : ℕ) → q < s.max_pages → used_at s.bitmap q ≡ true → ref s q ≢ 0
    used_page q h u = ground (arith, v.agree q h)

    choose :
        (o : Option ℕ)
        → scan_bytes s.bitmap 0 s.max_pages ≡ o
        → Lowest s.bitmap 0 s.max_pages o
        → Exhausted s (alloc_page s) ⊎ Allocated s (alloc_page s)
    choose none e seen =
        inl
          (ground arith, λ q h. used_page q h (seen q (omega (arith, v.bitmap_size)) (omega arith)))
    choose (some page) e (k, same, within, free, below) = inr (
      page,
      within,
      ground arith,
      ground (arith, v.agree page within),
      λ q h. used_page q (omega arith) (below q (omega arith)),
      λ q. ground (arith, ref-set_ref s v page within 1 q),
      ground (arith, use_page-IsValid s v page within 1),
    )

pub max_pages-alloc_page : (s : PmmState) → (alloc_page s).1.max_pages ≡ s.max_pages
unfolding alloc_page bitmap_set
max_pages-alloc_page s = ground arith
