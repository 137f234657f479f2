-- ===== src/Vma/Protect.antt =====
-- `vma_protect_range` refines a change of the protection bits over a range of addresses.
use drunix_os.Base.{
  ℕ, ◌+◌, ◌≤◌, ◌<◌, ◌≡◌, refl, ◌∙◌, inl, inr, Bool, Option, none, some, List, [], ◌∷◌, arith, ltb,
  leb, if◌then◌else◌, Bool-cases, Option-cases, length, length-append, reverse_onto,
}
use drunix_os.Vma.Area.{VmArea, overlaps, slice, replace_prot_flags, is_file_backed}
use drunix_os.Vma.Table.{coalesce_loop}
use drunix_os.Vma.Process.{Process, done, table, capacity, ensure_capacity}
use drunix_os.Vma.Ranges.{
  one_if, overlap_start, overlap_end, reprotect, protect_pieces, protect_count, protect_build,
  protect_range,
}
use drunix_os.Vma.View.{Attr, attr_at, view, OrderedIn}
use drunix_os.Vma.Merge.{append_each_fits, length-coalesce_loop}
use drunix_os.Vma.Cut.{
  cut, in_range, attr_at-slice, cut-OrderedIn, view-cut, rebuilt-OrderedIn, view_rebuilt,
  coalesce_loop-append,
}
use drunix_os.Vma.Growth.{table-ensure_capacity, ensure_capacity_room}

-- The same attributes under the protection bits of `new_flags`.
abbrev reprotected : ℕ → Attr → Attr
reprotected new_flags t = record t { flags = replace_prot_flags t.flags new_flags }

abbrev pub recolour : ℕ → ℕ → ℕ → ℕ → Option Attr → Option Attr
recolour start end new_flags a none = none
recolour start end new_flags a (some t) =
    if in_range start end a then some (reprotected new_flags t) else some t

attr_at-reprotect :
    (v : VmArea) (os oe new_flags a : ℕ)
    → v.start ≤ os
    → os ≤ a
    → attr_at (reprotect v os oe new_flags) a ≡ reprotected new_flags (attr_at v a)
unfolding reprotect slice attr_at is_file_backed replace_prot_flags
attr_at-reprotect v os oe new_flags a h k = ground arith

module _ (start end new_flags : ℕ) (proper : start < end) where
  protect_pieces-inside :
      (v : VmArea)
      → v.start ≤ v.end
      → OrderedIn v.start v.end (protect_pieces start end new_flags v)
  unfolding protect_pieces overlaps slice reprotect
  protect_pieces-inside v h = ground arith

  view-protect_pieces :
      (a : ℕ) (v : VmArea)
      → v.start ≤ v.end
      → view (protect_pieces start end new_flags v) a
        ≡ recolour start end new_flags a (view (v ∷ []) a)
  unfolding protect_pieces overlaps slice reprotect view
  view-protect_pieces a v h = ground (
    arith,
    attr_at-slice v v.start start a,
    attr_at-slice v end v.end a,
    attr_at-reprotect v (overlap_start v start) (overlap_end v end) new_flags a,
  )

  pub protect_count-length :
      (needed cursor : ℕ) (vs : List VmArea) (n c : ℕ)
      → protect_count start end needed cursor vs ≡ some (n, c)
      → n ≡ needed + length (cut (protect_pieces start end new_flags) vs)
  unfolding protect_count cut protect_pieces
  protect_count-length needed cursor [] n c e = ground arith
  protect_count-length needed cursor (v ∷ vs) n c e =
      let left = one_if (ltb v.start (overlap_start v start)) in
      let right = one_if (ltb (overlap_end v end) v.end) in
      ground (
        arith,
        length-append (protect_pieces start end new_flags v)
            (cut (protect_pieces start end new_flags) vs),
        protect_count-length (needed + 1) cursor vs n c,
        protect_count-length (needed + left + 1 + right) (overlap_end v end) vs n c,
      )

  -- The second pass finds the same cursors as the first, and every piece fits.
  pub protect_build_fits :
      (lo hi size needed cursor n c : ℕ) (dst vs : List VmArea)
      → OrderedIn lo hi vs
      → protect_count start end needed cursor vs ≡ some (n, c)
      → length dst + length (cut (protect_pieces start end new_flags) vs) ≤ size
      → protect_build start end new_flags size cursor dst vs
        ≡ some (coalesce_loop dst (cut (protect_pieces start end new_flags) vs))
  unfolding protect_build protect_count cut coalesce_loop
  protect_build_fits lo hi size needed cursor n c dst [] h e room = refl
  protect_build_fits lo hi size needed cursor n c dst (v ∷ vs) h e room =
      let pieces = protect_pieces start end new_flags v in
      let rest = cut (protect_pieces start end new_flags) vs in
      let left = one_if (ltb v.start (overlap_start v start)) in
      let right = one_if (ltb (overlap_end v end) v.end) in
      let next = coalesce_loop dst pieces in
      ground (
        arith,
        append_each_fits v.start v.end dst size pieces (protect_pieces-inside v h.1)
            (omega (arith, length-append pieces rest)),
        coalesce_loop-append dst pieces rest,
        length-append pieces rest,
        length-coalesce_loop dst pieces,
        protect_build_fits v.end hi size (needed + 1) cursor n c next vs h.2,
        protect_build_fits v.end hi size (needed + left + 1 + right) (overlap_end v end) n c next vs
            h.2,
      )

  protect_range-table :
      (memory scratch : Bool) (p q : Process) (hi : ℕ)
      → OrderedIn 0 hi (table p)
      → protect_range memory scratch p start end new_flags ≡ (done, q)
      → table q
        ≡ reverse_onto (coalesce_loop [] (cut (protect_pieces start end new_flags) (table p))) []
  unfolding protect_range
  protect_range-table memory scratch p q hi h e =
      elim (Option-cases (protect_count start end 0 start (table p))) [
        | inl bad ↦ ground arith
        | inr ((needed, cursor), count) ↦
            let r = ensure_capacity memory p needed in
            ground (
              arith,
              protect_count-length 0 start (table p) needed cursor count,
              ensure_capacity_room memory p needed,
              table-ensure_capacity memory p needed,
              protect_build_fits 0 hi (capacity r.1) 0 start needed cursor [] (table p) h,
            )
      ]

-- A successful `vma_protect_range` leaves an ordered table that says the same as before of every
-- address, but for the protection bits of the mapped addresses in the range.
pub protect_range-view :
    (memory scratch : Bool) (p q : Process) (start end new_flags hi : ℕ)
    → OrderedIn 0 hi (table p)
    → protect_range memory scratch p start end new_flags ≡ (done, q)
    → OrderedIn 0 hi (table q)
      × ((a : ℕ) → view (table q) a ≡ recolour start end new_flags a (view (table p) a))
unfolding protect_range
protect_range-view memory scratch p q start end new_flags hi h e =
    elim (Bool-cases (leb end start)) [
      | inl bad ↦ absurd (ground arith)
      | inr fine ↦
          let proper : start < end = ground arith in
          let pieces = protect_pieces start end new_flags in
          let inside = protect_pieces-inside start end new_flags proper in
          let ordered = cut-OrderedIn pieces inside 0 hi (table p) h in
          rw (protect_range-table start end new_flags proper memory scratch p q hi h e) (
            rebuilt-OrderedIn hi (cut pieces (table p)) ordered,
            λ a.
                view_rebuilt hi (cut pieces (table p)) a ordered
                ∙ view-cut pieces inside (recolour start end new_flags a) 0 hi (table p) a refl
                    (view-protect_pieces start end new_flags proper a) h,
          )
    ]
