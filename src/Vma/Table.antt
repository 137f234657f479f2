-- ===== src/Vma/Table.antt =====
-- The passes of kernel/mm/vma.c over an array of areas. An array with its count is the list of
-- its live entries; one that is filled from the front is held last entry first. The entries past
-- the count, which the code clears, hold no area and are not represented.
use drunix_os.Base.{
  ℕ, Bool, true, false, ◌&&◌, ltb, leb, ◌==◌, if◌then◌else◌, List, [], ◌∷◌, length, reverse_onto,
  Option, none, some, ◌>>=◌,
}
use drunix_os.Vma.Area.{VmArea, overlaps, can_merge}

-- One round of the loop of `vma_coalesce`: `vmas[0 .. out)`, last entry first, takes one more area.
unfoldable pub coalesce_step : List VmArea → VmArea → List VmArea
coalesce_step [] area = area ∷ []
coalesce_step (last ∷ dst) area =
    if can_merge last area then record last { end = area.end } ∷ dst else area ∷ last ∷ dst

unfoldable pub coalesce_loop : List VmArea → List VmArea → List VmArea
coalesce_loop dst [] = dst
coalesce_loop dst (area ∷ areas) = coalesce_loop (coalesce_step dst area) areas

unfoldable pub coalesce : List VmArea → List VmArea
coalesce areas = reverse_onto (coalesce_loop [] areas) []

unfoldable pub append_area : List VmArea → ℕ → VmArea → Option (List VmArea)
append_area [] capacity area =
    if ltb area.end area.start then none else if leb capacity 0 then none else some (area ∷ [])
append_area (last ∷ dst) capacity area =
    if ltb area.end area.start
    then none
    else if can_merge last area
    then some (record last { end = area.end } ∷ dst)
    else if leb capacity (length (last ∷ dst))
    then none
    else some (area ∷ last ∷ dst)

-- Areas appended one by one, up to the first that is refused.
unfoldable pub append_each : List VmArea → ℕ → List VmArea → Option (List VmArea)
append_each dst capacity [] = some dst
append_each dst capacity (area ∷ areas) =
    append_area dst capacity area >>= λ next. append_each next capacity areas

-- The loop of `vma_range_is_free`.
unfoldable pub all_clear : List VmArea → ℕ → ℕ → Bool
all_clear [] start end = true
all_clear (vma ∷ areas) start end =
    if overlaps vma start end then false else all_clear areas start end

unfoldable pub range_is_free : List VmArea → ℕ → ℕ → Bool
unfolding all_clear
range_is_free areas start end = if leb end start then false else all_clear areas start end

-- The scan, the overlap tests and the shift of `vma_insert_area`; `none` is an overlap.
unfoldable pub insert_sorted : List VmArea → VmArea → Option (List VmArea)
insert_sorted [] area = some (area ∷ [])
insert_sorted (vma ∷ areas) area =
    let rest = insert_sorted areas area in
    if overlaps vma area.start area.end
    then none
    else if leb vma.start area.start
    then (rest >>= λ placed. some (vma ∷ placed))
    else some (area ∷ vma ∷ areas)

unfoldable pub find : List VmArea → ℕ → Option VmArea
find [] addr = none
find (vma ∷ areas) addr =
    if leb vma.start addr && ltb addr vma.end then some vma else find areas addr

unfoldable pub find_kind : List VmArea → ℕ → Option VmArea
find_kind [] kind = none
find_kind (vma ∷ areas) kind = if vma.kind == kind then some vma else find_kind areas kind
