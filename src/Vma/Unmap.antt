-- ===== src/Vma/Unmap.antt =====
-- `vma_unmap_range` refines the erasure of a range of addresses.
use drunix_os.Base.{
  ==_iff, ◌==◌, ◌≢◌, ltb, ◌∙◌, leb, true, Bool-cases, ℕ, ◌+◌, ◌≤◌, ◌<◌, ◌≡◌, refl, Bool,
  if◌then◌else◌, List, [], ◌∷◌, length, length-append, reverse_onto, Option, none, some, arith,
  Option-cases, inl, inr,
}
use drunix_os.Vma.Area.{kind_generic, VmArea, overlaps, slice}
use drunix_os.Vma.Table.{coalesce_loop}
use drunix_os.Vma.Process.{Process, done, table, capacity, ensure_capacity}
use drunix_os.Vma.Ranges.{
  one_if, overlap_start, overlap_end, unmap_pieces, unmap_count, unmap_build, unmap_range,
}
use drunix_os.Vma.View.{Attr, view, OrderedIn}
use drunix_os.Vma.Merge.{append_each_fits, length-coalesce_loop}
use drunix_os.Vma.Cut.{
  view-cut, view_rebuilt, rebuilt-OrderedIn, cut-OrderedIn, cut, in_range, attr_at-slice,
  coalesce_loop-append,
}
use drunix_os.Vma.Growth.{table-ensure_capacity, ensure_capacity_room}

abbrev pub erase : ℕ → ℕ → ℕ → Option Attr → Option Attr
erase start end a o = if in_range start end a then none else o

module _ (start end : ℕ) (proper : start < end) where
  unmap_pieces-inside :
      (v : VmArea) → v.start ≤ v.end → OrderedIn v.start v.end (unmap_pieces start end v)
  unfolding unmap_pieces overlaps slice
  unmap_pieces-inside v h = ground arith

  view-unmap_pieces :
      (a : ℕ) (v : VmArea)
      → v.start ≤ v.end
      → view (unmap_pieces start end v) a ≡ erase start end a (view (v ∷ []) a)
  unfolding unmap_pieces overlaps slice view
  view-unmap_pieces a v h =
      ground (arith, attr_at-slice v v.start start a, attr_at-slice v end v.end a)

  unmap_count-length :
      (needed : ℕ) (vs : List VmArea) (n : ℕ)
      → unmap_count start end needed vs ≡ some n
      → n ≡ needed + length (cut (unmap_pieces start end) vs)
  unfolding unmap_count cut unmap_pieces
  unmap_count-length needed [] n e = ground arith
  unmap_count-length needed (v ∷ vs) n e = ground (
    arith,
    length-append (unmap_pieces start end v) (cut (unmap_pieces start end) vs),
    unmap_count-length (needed + 1) vs n,
    unmap_count-length needed vs n,
    unmap_count-length (needed + 1 + 0) vs n,
    unmap_count-length (needed + 0 + 1) vs n,
    unmap_count-length (needed + 0 + 0) vs n,
    unmap_count-length (needed + 1 + 1) vs n,
  )

  unmap_build_fits :
      (lo hi size : ℕ) (dst vs : List VmArea)
      → OrderedIn lo hi vs
      → length dst + length (cut (unmap_pieces start end) vs) ≤ size
      → unmap_build start end size dst vs
        ≡ some (coalesce_loop dst (cut (unmap_pieces start end) vs))
  unfolding unmap_build cut coalesce_loop
  unmap_build_fits lo hi size dst [] h room = refl
  unmap_build_fits lo hi size dst (v ∷ vs) h room =
      let pieces = unmap_pieces start end v in
      let rest = cut (unmap_pieces start end) vs in
      rw
        (
          append_each_fits v.start v.end dst size pieces (unmap_pieces-inside v h.1)
              (omega (arith, length-append pieces rest)),
          coalesce_loop-append dst pieces rest,
        )
        (unmap_build_fits v.end hi size (coalesce_loop dst pieces) vs h.2
          (omega (arith, length-append pieces rest, length-coalesce_loop dst pieces)))

  -- The table that a successful call leaves.
  unmap_range-table :
      (memory scratch : Bool) (p q : Process) (hi : ℕ)
      → OrderedIn 0 hi (table p)
      → unmap_range memory scratch p start end ≡ (done, q)
      → table q ≡ reverse_onto (coalesce_loop [] (cut (unmap_pieces start end) (table p))) []
  unfolding unmap_range
  unmap_range-table memory scratch p q hi h e =
      elim (Option-cases (unmap_count start end 0 (table p))) [
        | inl bad ↦ ground arith
        | inr (needed, count) ↦
            let r = ensure_capacity memory p needed in
            ground (
              arith,
              unmap_count-length 0 (table p) needed count,
              ensure_capacity_room memory p needed,
              table-ensure_capacity memory p needed,
              unmap_build_fits 0 hi (capacity r.1) [] (table p) h,
            )
      ]

-- A successful `vma_unmap_range` leaves an ordered table that maps nothing in the range and says the
-- same as before of every other address.
pub unmap_range-view :
    (memory scratch : Bool) (p q : Process) (start end hi : ℕ)
    → OrderedIn 0 hi (table p)
    → unmap_range memory scratch p start end ≡ (done, q)
    → OrderedIn 0 hi (table q) × ((a : ℕ) → view (table q) a ≡ erase start end a (view (table p) a))
unfolding unmap_range
unmap_range-view memory scratch p q start end hi h e = elim (Bool-cases (leb end start)) [
  | inl bad ↦ absurd (ground arith)
  | inr fine ↦
      let proper : start < end = ground arith in
      let inside = unmap_pieces-inside start end proper in
      let ordered = cut-OrderedIn (unmap_pieces start end) inside 0 hi (table p) h in
      rw (unmap_range-table start end proper memory scratch p q hi h e) (
        rebuilt-OrderedIn hi (cut (unmap_pieces start end) (table p)) ordered,
        λ a.
            view_rebuilt hi (cut (unmap_pieces start end) (table p)) a ordered
            ∙ view-cut (unmap_pieces start end) inside (erase start end a) 0 hi (table p) a
                (ground arith) (view-unmap_pieces start end proper a) h,
      )
]

-- Every area that meets the range is of the generic kind.
abbrev pub AllGeneric : ℕ → ℕ → List VmArea → Type 0
AllGeneric start end [] = Unit {0}
AllGeneric start end (v ∷ vs) =
    (overlaps v start end ≡ true → v.kind ≡ kind_generic) × AllGeneric start end vs

unmap_count_total :
    (start end needed : ℕ) (vs : List VmArea)
    → AllGeneric start end vs
    → (n : ℕ) × (unmap_count start end needed vs ≡ some n)
unfolding unmap_count
unmap_count_total start end needed [] g = (needed, refl)
unmap_count_total start end needed (v ∷ vs) g = elim (Bool-cases (overlaps v start end)) [
  | inr out ↦ let (n, ih) = unmap_count_total start end (needed + 1) vs g.1 in (n, rw out ih)
  | inl meets ↦
      let left = one_if (ltb v.start (overlap_start v start)) in
      let right = one_if (ltb (overlap_end v end) v.end) in
      let (n, ih) = unmap_count_total start end (needed + left + right) vs g.1 in
      let generic : (v.kind == kind_generic) ≡ true = (==_iff v.kind kind_generic).1 (g.0 meets) in
      (n, rw (meets, generic) ih)
]

-- Areas past the range stay whole, and at most one area falls in two.
length-cut_past :
    (start end lo hi : ℕ) (vs : List VmArea)
    → OrderedIn lo hi vs
    → end ≤ lo
    → length (cut (unmap_pieces start end) vs) ≡ length vs
unfolding cut unmap_pieces overlaps
length-cut_past start end lo hi [] h past = refl
length-cut_past start end lo hi (v ∷ vs) h past =
    ground (arith, length-cut_past start end v.end hi vs h.2)

length-cut-le :
    (start end lo hi : ℕ) (vs : List VmArea)
    → OrderedIn lo hi vs
    → length (cut (unmap_pieces start end) vs) ≤ length vs + 1
unfolding cut unmap_pieces
length-cut-le start end lo hi [] h = omega arith
length-cut-le start end lo hi (v ∷ vs) h = ground (
  arith,
  length-append (unmap_pieces start end v) (cut (unmap_pieces start end) vs),
  length-cut-le start end v.end hi vs h.2,
  length-cut_past start end v.end hi vs h.2,
)

-- A call on a proper range that meets generic areas only succeeds, given the memory that it asks
-- for and room for one more entry than the table has.
pub unmap_range_total :
    (p : Process) (start end hi : ℕ)
    → start < end
    → OrderedIn 0 hi (table p)
    → AllGeneric start end (table p)
    → ((n : ℕ) → n ≤ length (table p) + 1 → (ensure_capacity true p n).0 ≡ done)
    → (unmap_range true true p start end).0 ≡ done
unfolding unmap_range
unmap_range_total p start end hi proper h g room =
    let (needed, count) = unmap_count_total start end 0 (table p) g in
    let exact = unmap_count-length start end proper 0 (table p) needed count in
    let r = ensure_capacity true p needed in
    ground (
      arith,
      room needed (omega (arith, exact, length-cut-le start end 0 hi (table p) h)),
      ensure_capacity_room true p needed,
      table-ensure_capacity true p needed,
      unmap_build_fits start end proper 0 hi (capacity r.1) [] (table p) h,
    )

-- Whatever the outcome, a call that does not succeed leaves the table as it was.
pub unmap_range_failed :
    (memory scratch : Bool) (p : Process) (start end : ℕ)
    → (unmap_range memory scratch p start end).0 ≢ done
    → table (unmap_range memory scratch p start end).1 ≡ table p
unfolding unmap_range
unmap_range_failed memory scratch p start end e =
    elim (Option-cases (unmap_count start end 0 (table p))) [
      | inl bad ↦ ground arith
      | inr (needed, count) ↦ ground (arith, table-ensure_capacity memory p needed)
    ]
