-- ===== src/Vma/Ranges.antt =====
-- `vma_unmap_range` and `vma_protect_range` of kernel/mm/vma.c. Each makes one pass that checks
-- and counts, then a pass that appends the pieces of every area to a fresh array.
use drunix_os.Base.{
  ℕ, ◌+◌, Bool, true, false, ltb, leb, ◌==◌, if◌then◌else◌, List, [], ◌∷◌, ◌++◌, reverse_onto,
  Option, none, some, ◌>>=◌,
}
use drunix_os.Vma.Area.{VmArea, kind_generic, overlaps, slice, replace_prot_flags}
use drunix_os.Vma.Table.{append_each}
use drunix_os.Vma.Process.{
  Process, Status, failed, table, capacity, ensure_capacity, when_done, commit,
}

abbrev pub overlap_start : VmArea → ℕ → ℕ
overlap_start vma start = if ltb vma.start start then start else vma.start

abbrev pub overlap_end : VmArea → ℕ → ℕ
overlap_end vma end = if ltb end vma.end then end else vma.end

abbrev left_of : VmArea → ℕ → List VmArea
left_of vma os = if ltb vma.start os then slice vma vma.start os ∷ [] else []

abbrev right_of : VmArea → ℕ → List VmArea
right_of vma oe = if ltb oe vma.end then slice vma oe vma.end ∷ [] else []

unfoldable pub one_if : Bool → ℕ
one_if true = 1
one_if false = 0

-- What is left of one area, in the order in which the loop appends it.
unfoldable pub unmap_pieces : ℕ → ℕ → VmArea → List VmArea
unmap_pieces start end vma =
    if overlaps vma start end
    then left_of vma (overlap_start vma start) ++ right_of vma (overlap_end vma end)
    else vma ∷ []

-- The first pass: the entries needed, or `none` at an area that may not be unmapped.
unfoldable pub unmap_count : ℕ → ℕ → ℕ → List VmArea → Option ℕ
unfolding one_if
unmap_count start end needed [] = some needed
unmap_count start end needed (vma ∷ areas) =
    let kept = unmap_count start end (needed + 1) areas in
    let cut =
      unmap_count start end
        (needed
          + one_if (ltb vma.start (overlap_start vma start))
          + one_if (ltb (overlap_end vma end) vma.end))
        areas in
    if overlaps vma start end then (if vma.kind == kind_generic then cut else none) else kept

unfoldable pub unmap_build : ℕ → ℕ → ℕ → List VmArea → List VmArea → Option (List VmArea)
unmap_build start end cap dst [] = some dst
unmap_build start end cap dst (vma ∷ areas) =
    append_each dst cap (unmap_pieces start end vma) >>= λ next.
    unmap_build start end cap next areas

-- The array of the second pass replaces the table if `kmalloc` gave it (`scratch`).
abbrev rebuilt : Bool → Option (List VmArea) → Option (List VmArea)
rebuilt scratch built = if scratch then (built >>= λ dst. some (reverse_onto dst [])) else none

unfoldable pub unmap_range : Bool → Bool → Process → ℕ → ℕ → Status × Process
unmap_range memory scratch p start end =
    if leb end start then (failed, p) else elim (unmap_count start end 0 (table p)) [
      | none ↦ (failed, p)
      | some needed ↦
          when_done (ensure_capacity memory p needed)
            (λ q. commit q (rebuilt scratch (unmap_build start end (capacity q) [] (table q))))
    ]

-- The middle of an area under its new protection.
unfoldable pub reprotect : VmArea → ℕ → ℕ → ℕ → VmArea
reprotect vma os oe new_flags = record (slice vma os oe) {
  flags = replace_prot_flags vma.flags new_flags;
}

unfoldable pub protect_pieces : ℕ → ℕ → ℕ → VmArea → List VmArea
protect_pieces start end new_flags vma =
    if overlaps vma start end
    then left_of vma (overlap_start vma start)
      ++ (reprotect vma (overlap_start vma start) (overlap_end vma end) new_flags
          ∷ right_of vma (overlap_end vma end))
    else vma ∷ []

-- The first pass: `cursor` is the end of what is covered so far.
unfoldable pub protect_count : ℕ → ℕ → ℕ → ℕ → List VmArea → Option (ℕ × ℕ)
unfolding one_if
protect_count start end needed cursor [] = some (needed, cursor)
protect_count start end needed cursor (vma ∷ areas) =
    let kept = protect_count start end (needed + 1) cursor areas in
    let cut =
      protect_count start end
        (needed
          + one_if (ltb vma.start (overlap_start vma start))
          + 1
          + one_if (ltb (overlap_end vma end) vma.end))
        (overlap_end vma end) areas in
    if overlaps vma start end
    then (if vma.kind == kind_generic
        then (if overlap_start vma start == cursor then cut else none)
        else none)
    else kept

unfoldable pub protect_build : ℕ → ℕ → ℕ → ℕ → ℕ → List VmArea → List VmArea → Option (List VmArea)
protect_build start end new_flags cap cursor dst [] = some dst
protect_build start end new_flags cap cursor dst (vma ∷ areas) =
    let add = append_each dst cap (protect_pieces start end new_flags vma) in
    let kept = add >>= λ next. protect_build start end new_flags cap cursor next areas in
    let cut =
      add >>= λ next. protect_build start end new_flags cap (overlap_end vma end) next areas in
    if overlaps vma start end
    then (if overlap_start vma start == cursor then cut else none)
    else kept

unfoldable pub protect_range : Bool → Bool → Process → ℕ → ℕ → ℕ → Status × Process
protect_range memory scratch p start end new_flags =
    if leb end start then (failed, p) else elim (protect_count start end 0 start (table p)) [
      | none ↦ (failed, p)
      | some (needed, cursor) ↦
          if cursor == end
          then when_done (ensure_capacity memory p needed) (λ q.
            commit q
              (rebuilt scratch (protect_build start end new_flags (capacity q) start [] (table q))))
          else (failed, p)
    ]
