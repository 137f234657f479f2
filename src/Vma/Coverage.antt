-- ===== src/Vma/Coverage.antt =====
-- `vma_protect_range` succeeds exactly on ranges that generic areas cover without a hole.
use drunix_os.Vma.Growth.{ensure_capacity_room, table-ensure_capacity}
use drunix_os.Vma.Protect.{protect_build_fits, protect_count-length}
use drunix_os.Vma.Cut.{cut}
use drunix_os.Vma.Process.{capacity, ensure_capacity, done, table, Process}
use drunix_os.Base.{
  ℕ, ◌+◌, ◌≤◌, ◌<◌, ◌≡◌, refl, ◌≢◌, ◌⊎◌, inl, inr, Bool, true, false, some, List, [], ◌∷◌, arith,
  ltb, ◌==◌, Bool-cases, Option-cases, length, length-append,
}
use drunix_os.Vma.Area.{VmArea, overlaps, kind_generic}
use drunix_os.Vma.Ranges.{
  protect_pieces, protect_range, one_if, overlap_start, overlap_end, protect_count,
}
use drunix_os.Vma.View.{Attr, attr_at, view, OrderedIn, view_below}

-- The address belongs to an area of the generic kind.
abbrev pub Mapped : List VmArea → ℕ → Type 0
Mapped vs a = (t : Attr) × (view vs a ≡ some t) × (t.kind ≡ kind_generic)

-- No area is empty.
abbrev pub AllProper : List VmArea → Type 0
AllProper [] = Unit {0}
AllProper (v ∷ vs) = (v.start < v.end) × AllProper vs

module _ (start end : ℕ) where
  protect_count_covers :
      (needed cursor n c lo hi a : ℕ) (vs : List VmArea)
      → OrderedIn lo hi vs
      → protect_count start end needed cursor vs ≡ some (n, c)
      → start ≤ a
      → a < end
      → cursor ≤ a
      → a < c
      → Mapped vs a
  unfolding protect_count view overlaps attr_at
  protect_count_covers needed cursor n c lo hi a [] h e sa ae ca ac = absurd (ground arith)
  protect_count_covers needed cursor n c lo hi a (v ∷ vs) h e sa ae ca ac =
      elim (Bool-cases (overlaps v start end)) [
        | inr out ↦
            let (t, seen, generic) =
              protect_count_covers (needed + 1) cursor n c v.end hi a vs h.2 (ground arith) sa ae ca
                ac in
            (t, skipped out seen, generic)
        | inl meets ↦ elim (Bool-cases (ltb a v.end)) [
          | inl early ↦ (attr_at v a, hit meets early, kind_of meets)
          | inr late ↦
              let left = one_if (ltb v.start (overlap_start v start)) in
              let right = one_if (ltb (overlap_end v end) v.end) in
              let (t, seen, generic) =
                protect_count_covers (needed + left + 1 + right) (overlap_end v end) n c v.end hi a
                  vs h.2 (ground arith) sa ae (ground arith) ac in
              (t, later late seen, generic)
        ]
      ]
    where
      skipped :
          {t : Attr} → overlaps v start end ≡ false → view vs a ≡ some t → view (v ∷ vs) a ≡ some t
      skipped o s = ground arith

      later : {t : Attr} → ltb a v.end ≡ false → view vs a ≡ some t → view (v ∷ vs) a ≡ some t
      later o s = ground arith

      hit : overlaps v start end ≡ true → ltb a v.end ≡ true → view (v ∷ vs) a ≡ some (attr_at v a)
      hit o s = ground arith

      kind_of : overlaps v start end ≡ true → (attr_at v a).kind ≡ kind_generic
      kind_of o = ground arith

  -- The first pass goes through wherever the rest of the range is covered.
  protect_count_total :
      (needed cursor lo hi : ℕ) (vs : List VmArea)
      → OrderedIn lo hi vs
      → AllProper vs
      → start < end
      → start ≤ cursor
      → cursor ≤ end
      → (cursor ≡ start) ⊎ (cursor ≤ lo)
      → ((a : ℕ) → cursor ≤ a → a < end → Mapped vs a)
      → (n : ℕ) × (protect_count start end needed cursor vs ≡ some (n, end))
  unfolding protect_count view overlaps attr_at
  protect_count_total needed cursor lo hi [] h w proper sc ce at covered =
      elim (Bool-cases (ltb cursor end)) [
        | inl short ↦ let (t, seen, k) = covered cursor (omega arith) (ground arith) in absurd (cc)
        | inr whole ↦ (needed, ground arith)
      ]
  protect_count_total needed cursor lo hi (v ∷ vs) h w proper sc ce at covered =
      elim (Bool-cases (overlaps v start end)) [
        | inr out ↦
            let (n, ih) =
              protect_count_total (needed + 1) cursor v.end hi vs h.2 w.1 proper sc ce
                (ground arith)
                (λ a p q. let (t, seen, k) = covered a p q in (t, ground arith, k)) in
            (n, rw out ih)
        | inl meets ↦
            let left = one_if (ltb v.start (overlap_start v start)) in
            let right = one_if (ltb (overlap_end v end) v.end) in
            let at_cursor = reaches meets in
            let generic = kind_of meets in
            let (n, ih) =
              protect_count_total (needed + left + 1 + right) (overlap_end v end) v.end hi vs h.2
                w.1 proper (ground arith) (ground arith) (inr (ground arith))
                (λ a p q. let (t, seen, k) = covered a (ground arith) q in (t, ground arith, k)) in
            (n, rw (meets, generic, at_cursor) ih)
      ]
    where
      -- Where the area starts past the cursor, the cursor is not covered.
      starts : overlaps v start end ≡ true → v.start ≤ cursor
      starts m = elim (Bool-cases (ltb cursor v.start)) [
        | inr z ↦ ground arith
        | inl y ↦
            let (t, seen, k) = covered cursor (omega arith) (ground arith) in
            absurd (ground (arith, view_below v.end hi vs cursor h.2))
      ]

      reaches : overlaps v start end ≡ true → (overlap_start v start == cursor) ≡ true
      reaches m = ground (arith, starts m)

      kind_of : overlaps v start end ≡ true → (v.kind == kind_generic) ≡ true
      kind_of m =
          let s = starts m in
          let (t, seen, k) = covered cursor (omega arith) (ground arith) in ground arith

-- Only a range that generic areas cover can be reprotected.
pub protect_range_covered :
    (memory scratch : Bool) (p : Process) (start end new_flags hi : ℕ)
    → OrderedIn 0 hi (table p)
    → (protect_range memory scratch p start end new_flags).0 ≡ done
    → (a : ℕ) → start ≤ a
    → a < end
    → Mapped (table p) a
unfolding protect_range
protect_range_covered memory scratch p start end new_flags hi h e a sa ae =
    elim (Option-cases (protect_count start end 0 start (table p))) [
      | inl bad ↦ absurd (ground arith)
      | inr ((needed, cursor), count) ↦
          protect_count_covers start end 0 start needed cursor 0 hi a (table p) h count sa ae sa
            (ground arith)
    ]

module _ (start end new_flags : ℕ) where
  length-cut_past :
      (lo hi : ℕ) (vs : List VmArea)
      → OrderedIn lo hi vs
      → end ≤ lo
      → length (cut (protect_pieces start end new_flags) vs) ≡ length vs
  unfolding cut protect_pieces overlaps
  length-cut_past lo hi [] h past = refl
  length-cut_past lo hi (v ∷ vs) h past = ground (arith, length-cut_past v.end hi vs h.2)

  length-cut_inside :
      (lo hi : ℕ) (vs : List VmArea)
      → OrderedIn lo hi vs
      → start ≤ lo
      → length (cut (protect_pieces start end new_flags) vs) ≤ length vs + 1
  unfolding cut protect_pieces overlaps
  length-cut_inside lo hi [] h inside = omega arith
  length-cut_inside lo hi (v ∷ vs) h inside = ground (
    arith,
    length-append (protect_pieces start end new_flags v)
        (cut (protect_pieces start end new_flags) vs),
    length-cut_inside v.end hi vs h.2,
    length-cut_past v.end hi vs h.2,
  )

  length-cut-le :
      (lo hi : ℕ) (vs : List VmArea)
      → OrderedIn lo hi vs
      → length (cut (protect_pieces start end new_flags) vs) ≤ length vs + 2
  unfolding cut protect_pieces overlaps
  length-cut-le lo hi [] h = omega arith
  length-cut-le lo hi (v ∷ vs) h = ground (
    arith,
    length-append (protect_pieces start end new_flags v)
        (cut (protect_pieces start end new_flags) vs),
    length-cut-le v.end hi vs h.2,
    length-cut_inside v.end hi vs h.2,
    length-cut_past v.end hi vs h.2,
  )

-- A range that generic areas cover can be reprotected, given the memory that the call asks for and
-- room for two more entries than the table has.
pub protect_range_total :
    (p : Process) (start end new_flags hi : ℕ)
    → start < end
    → OrderedIn 0 hi (table p)
    → AllProper (table p)
    → ((a : ℕ) → start ≤ a → a < end → Mapped (table p) a)
    → ((n : ℕ) → n ≤ length (table p) + 2 → (ensure_capacity true p n).0 ≡ done)
    → (protect_range true true p start end new_flags).0 ≡ done
unfolding protect_range
protect_range_total p start end new_flags hi proper h w covered room =
    let (needed, count) =
      protect_count_total start end 0 start 0 hi (table p) h w proper (omega arith) (omega arith)
        (inl refl) covered in
    let exact =
      protect_count-length start end new_flags proper 0 start (table p) needed end count in
    let r = ensure_capacity true p needed in
    ground (
      arith,
      room needed (omega (arith, exact, length-cut-le start end new_flags 0 hi (table p) h)),
      ensure_capacity_room true p needed,
      table-ensure_capacity true p needed,
      protect_build_fits start end new_flags proper 0 hi (capacity r.1) 0 start needed end []
          (table p) h count,
    )

-- Whatever the outcome, a call that does not succeed leaves the table as it was.
pub protect_range_failed :
    (memory scratch : Bool) (p : Process) (start end new_flags : ℕ)
    → (protect_range memory scratch p start end new_flags).0 ≢ done
    → table (protect_range memory scratch p start end new_flags).1 ≡ table p
unfolding protect_range
protect_range_failed memory scratch p start end new_flags e =
    elim (Option-cases (protect_count start end 0 start (table p))) [
      | inl bad ↦ ground arith
      | inr ((needed, cursor), count) ↦ ground (arith, table-ensure_capacity memory p needed)
    ]
