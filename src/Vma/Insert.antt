-- ===== src/Vma/Insert.antt =====
-- Adding an area (`vma_insert_area`, `vma_add`) and finding one (`vma_find`).
use drunix_os.Vma.Merge.{view-coalesce, coalesce-OrderedIn}
use drunix_os.Vma.Growth.{table-ensure_capacity}
use drunix_os.Vma.Process.{done, ensure_capacity, table, place, Process, insert_area, find_area}
use drunix_os.Base.{
  ℕ, ◌+◌, ◌≤◌, ◌<◌, ◌≡◌, refl, ◌∙◌, ◌≢◌, ◌⊎◌, inl, inr, Bool, true, none, some, List, [], ◌∷◌,
  arith, leb, if◌then◌else◌, Bool-cases, Option-cases, length,
}
use drunix_os.Vma.Area.{VmArea, overlaps}
use drunix_os.Vma.Table.{coalesce, range_is_free, all_clear, insert_sorted, find}
use drunix_os.Vma.View.{attr_at, covers, view, OrderedIn, view_below}

-- `vma_find` gives an area that covers the address, and says of it what the view says.
find-view :
    (vs : List VmArea) (a : ℕ) (v : VmArea)
    → find vs a ≡ some v
    → (covers v a ≡ true) × (view vs a ≡ some (attr_at v a))
unfolding find view
find-view [] a v e = absurd (cc)
find-view (w ∷ vs) a v e = ground (arith, find-view vs a v)

find-none : (vs : List VmArea) (a : ℕ) → find vs a ≡ none → view vs a ≡ none
unfolding find view
find-none [] a e = refl
find-none (w ∷ vs) a e = ground (arith, find-none vs a)

insert_sorted-OrderedIn :
    (lo hi : ℕ) (vs : List VmArea) (area : VmArea) (r : List VmArea)
    → OrderedIn lo hi vs
    → lo ≤ area.start
    → area.start < area.end
    → area.end ≤ hi
    → insert_sorted vs area ≡ some r
    → OrderedIn lo hi r
unfolding insert_sorted overlaps
insert_sorted-OrderedIn lo hi [] area r h la w ah e = ground arith
insert_sorted-OrderedIn lo hi (v ∷ vs) area r h la w ah e =
    elim (Option-cases (insert_sorted vs area)) [
      | inl bad ↦ ground arith
      | inr (r', placed) ↦ ground (
        arith,
        λ (p : v.end ≤ area.start). insert_sorted-OrderedIn v.end hi vs area r' h.2 p w ah placed,
      )
    ]

view-insert_sorted :
    (lo hi : ℕ) (vs : List VmArea) (area : VmArea) (r : List VmArea) (a : ℕ)
    → OrderedIn lo hi vs
    → area.start < area.end
    → insert_sorted vs area ≡ some r
    → view r a ≡ (if covers area a then some (attr_at area a) else view vs a)
unfolding insert_sorted overlaps view
view-insert_sorted lo hi [] area r a h w e = ground arith
view-insert_sorted lo hi (v ∷ vs) area r a h w e = elim (Option-cases (insert_sorted vs area)) [
  | inl bad ↦ ground (arith, view_below v.end hi vs a h.2)
  | inr (r', placed) ↦
      ground
        (arith, view-insert_sorted v.end hi vs area r' a h.2 w placed, view_below v.end hi vs a h.2)
]

-- What is placed meets no mapped address.
insert_sorted_free :
    (lo hi : ℕ) (vs : List VmArea) (area : VmArea) (r : List VmArea) (a : ℕ)
    → OrderedIn lo hi vs
    → covers area a ≡ true
    → insert_sorted vs area ≡ some r
    → view vs a ≡ none
unfolding insert_sorted overlaps view
insert_sorted_free lo hi [] area r a h c e = refl
insert_sorted_free lo hi (v ∷ vs) area r a h c e = elim (Option-cases (insert_sorted vs area)) [
  | inl bad ↦ ground (arith, view_below v.end hi vs a h.2)
  | inr (r', placed) ↦
      ground
        (arith, insert_sorted_free v.end hi vs area r' a h.2 c placed, view_below v.end hi vs a h.2)
]

-- Which tables accept an area: those where nothing meets its range.
insert_sorted_total :
    (lo hi : ℕ) (vs : List VmArea) (area : VmArea)
    → OrderedIn lo hi vs
    → area.start < area.end
    → all_clear vs area.start area.end ≡ true
    → (r : List VmArea) × (insert_sorted vs area ≡ some r)
unfolding insert_sorted all_clear
insert_sorted_total lo hi [] area h w free = (area ∷ [], refl)
insert_sorted_total lo hi (v ∷ vs) area h w free =
    let (r, ih) = insert_sorted_total v.end hi vs area h.2 w (ground arith) in
    elim (Bool-cases (leb v.start area.start)) [
      | inl before ↦ (v ∷ r, ground arith)
      | inr after ↦ (area ∷ v ∷ vs, ground arith)
    ]

-- A successful insertion of a proper area leaves an ordered table that maps its range as the area
-- says, and says the same as before of every other address.
pub insert_area-view :
    (memory : Bool) (p q : Process) (area : VmArea) (hi : ℕ)
    → OrderedIn 0 hi (table p)
    → area.start < area.end
    → area.end ≤ hi
    → insert_area memory p area ≡ (done, q)
    → OrderedIn 0 hi (table q)
      × ((a : ℕ)
          → view (table q) a ≡ (if covers area a then some (attr_at area a) else view (table p) a))
unfolding insert_area place
insert_area-view memory p q area hi h w eh e = elim (Option-cases (insert_sorted (table p) area)) [
  | inl bad ↦ absurd (ground (arith, table-ensure_capacity memory p (length (table p) + 1)))
  | inr (r, placed) ↦
      let ordered = insert_sorted-OrderedIn 0 hi (table p) area r h (omega arith) w eh placed in
      let left : table q ≡ coalesce r =
        ground (arith, table-ensure_capacity memory p (length (table p) + 1)) in
      rw left (
        coalesce-OrderedIn hi r ordered,
        λ a. view-coalesce hi r a ordered ∙ view-insert_sorted 0 hi (table p) area r a h w placed,
      )
]

-- An area is accepted if its range is proper and free and the table can hold one more entry.
pub insert_area_total :
    (memory : Bool) (p : Process) (area : VmArea) (hi : ℕ)
    → OrderedIn 0 hi (table p)
    → range_is_free (table p) area.start area.end ≡ true
    → (ensure_capacity memory p (length (table p) + 1)).0 ≡ done
    → (insert_area memory p area).0 ≡ done
unfolding insert_area place range_is_free
insert_area_total memory p area hi h free room =
    let (r, placed) = insert_sorted_total 0 hi (table p) area h (ground arith) (ground arith) in
    ground (arith, table-ensure_capacity memory p (length (table p) + 1))

-- A proper area that meets a mapped address is refused.
pub insert_area_overlap :
    (memory : Bool) (p : Process) (area : VmArea) (hi a : ℕ)
    → OrderedIn 0 hi (table p)
    → covers area a ≡ true
    → view (table p) a ≢ none
    → (insert_area memory p area).0 ≢ done
unfolding insert_area place
insert_area_overlap memory p area hi a h c m e =
    elim (Option-cases (insert_sorted (table p) area)) [
      | inl bad ↦ ground (arith, table-ensure_capacity memory p (length (table p) + 1))
      | inr (r, placed) ↦ m (insert_sorted_free 0 hi (table p) area r a h c placed)
    ]

-- Addresses of a range that no area meets are not mapped.
pub view-all_clear :
    (vs : List VmArea) (start end a : ℕ)
    → all_clear vs start end ≡ true
    → start ≤ a
    → a < end
    → view vs a ≡ none
unfolding all_clear overlaps view
view-all_clear [] start end a free sa ae = refl
view-all_clear (v ∷ vs) start end a free sa ae = ground (arith, view-all_clear vs start end a)

-- A call that does not succeed leaves the table as it was.
pub insert_area_failed :
    (memory : Bool) (p : Process) (area : VmArea)
    → (insert_area memory p area).0 ≢ done
    → table (insert_area memory p area).1 ≡ table p
unfolding insert_area place
insert_area_failed memory p area e =
    ground (arith, table-ensure_capacity memory p (length (table p) + 1))

-- `vma_find` finds an area exactly at the addresses that the table maps, an area that holds the
-- address and whose attributes the view gives.
pub find_area-view :
    (p : Process) (a : ℕ)
    → ((find_area p a ≡ none) × (view (table p) a ≡ none))
      ⊎ ((v : VmArea) × (find_area p a ≡ some v)
          × (covers v a ≡ true)
          × (view (table p) a ≡ some (attr_at v a)))
unfolding find_area
find_area-view p a = elim (Option-cases (find (table p) a)) [
  | inl nothing ↦ inl (nothing, find-none (table p) a nothing)
  | inr (v, found) ↦ let (c, s) = find-view (table p) a v found in inr (v, found, c, s)
]
