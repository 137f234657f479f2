-- ===== src/Vma/Merge.antt =====
-- Merging neighbours (`vma_coalesce`, `vma_append_area`) keeps the order of the table and what it
-- says of each address.
use drunix_os.Base.{
  ℕ, ◌≤◌, ◌<◌, ◌≡◌, refl, true, ltb, if◌then◌else◌, List, [], ◌∷◌, length, some, ◌+◌, arith,
}
use drunix_os.Vma.Area.{VmArea, is_file_backed, can_merge}
use drunix_os.Vma.Table.{coalesce_step, coalesce_loop, coalesce, append_area, append_each}
use drunix_os.Vma.View.{
  attr_at, view, OrderedIn, EndsBy, EndsBy-weaken, view_past, view_below, reverse_onto-OrderedIn,
  view-reverse_onto,
}

-- Two areas that merge have the same attributes, wherever they are read.
can_merge-attr :
    (l r : VmArea) (a : ℕ)
    → can_merge l r ≡ true
    → (l.end ≡ r.start)
      × (attr_at r a ≡ attr_at l a)
      × (attr_at (record l { end = r.end }) a ≡ attr_at l a)
unfolding can_merge attr_at is_file_backed
can_merge-attr l r a h = ground arith

coalesce_step-EndsBy :
    (dst : List VmArea) (v : VmArea)
    → EndsBy v.start dst
    → v.start ≤ v.end
    → EndsBy v.end (coalesce_step dst v)
unfolding coalesce_step
coalesce_step-EndsBy [] v d h = (omega arith, h, tt)
coalesce_step-EndsBy (l ∷ dst) v d h = ground (arith, can_merge-attr l v 0)

view-coalesce_step :
    (dst : List VmArea) (v : VmArea) (a : ℕ)
    → EndsBy v.start dst
    → v.start ≤ v.end
    → view (coalesce_step dst v) a ≡ view (v ∷ dst) a
unfolding coalesce_step view
view-coalesce_step [] v a d h = refl
view-coalesce_step (l ∷ dst) v a d h = ground (arith, can_merge-attr l v a)

length-coalesce_step :
    (dst : List VmArea) (v : VmArea) → length (coalesce_step dst v) ≤ length dst + 1
unfolding coalesce_step
length-coalesce_step [] v = omega arith
length-coalesce_step (l ∷ dst) v = ground arith

pub coalesce_loop-EndsBy :
    (lo hi : ℕ) (dst vs : List VmArea)
    → EndsBy lo dst
    → OrderedIn lo hi vs
    → EndsBy hi (coalesce_loop dst vs)
unfolding coalesce_loop
coalesce_loop-EndsBy lo hi dst [] d h = EndsBy-weaken lo hi dst h d
coalesce_loop-EndsBy lo hi dst (v ∷ vs) d h =
    coalesce_loop-EndsBy v.end hi (coalesce_step dst v) vs
      (coalesce_step-EndsBy dst v (EndsBy-weaken lo v.start dst h.0 d) h.1) h.2

pub view-coalesce_loop :
    (lo hi : ℕ) (dst vs : List VmArea) (a : ℕ)
    → EndsBy lo dst
    → OrderedIn lo hi vs
    → view (coalesce_loop dst vs) a ≡ (if ltb a lo then view dst a else view vs a)
unfolding coalesce_loop view
view-coalesce_loop lo hi dst [] a d h = ground (arith, view_past lo dst a d)
view-coalesce_loop lo hi dst (v ∷ vs) a d h =
    let d' = EndsBy-weaken lo v.start dst h.0 d in
    ground (
      arith,
      view-coalesce_loop v.end hi (coalesce_step dst v) vs a (coalesce_step-EndsBy dst v d' h.1)
          h.2,
      view-coalesce_step dst v a d' h.1,
      view_past lo dst a d,
      view_below v.end hi vs a h.2,
    )

-- `vma_coalesce` changes neither the order nor what the table says of any address.
pub coalesce-OrderedIn :
    (hi : ℕ) (vs : List VmArea) → OrderedIn 0 hi vs → OrderedIn 0 hi (coalesce vs)
unfolding coalesce
coalesce-OrderedIn hi vs h =
    reverse_onto-OrderedIn hi hi (coalesce_loop [] vs) [] (coalesce_loop-EndsBy 0 hi [] vs tt h)
      (omega arith)

pub view-coalesce :
    (hi : ℕ) (vs : List VmArea) (a : ℕ) → OrderedIn 0 hi vs → view (coalesce vs) a ≡ view vs a
unfolding coalesce view
view-coalesce hi vs a h = ground (
  arith,
  view-reverse_onto hi hi (coalesce_loop [] vs) [] a (coalesce_loop-EndsBy 0 hi [] vs tt h)
      (omega arith),
  view-coalesce_loop 0 hi [] vs a tt h,
  view_past hi (coalesce_loop [] vs) a (coalesce_loop-EndsBy 0 hi [] vs tt h),
)

-- Appending the areas one by one gives what the merging loop gives, and needs room for no more.
append_area-eq_some :
    (dst : List VmArea) (capacity : ℕ) (v : VmArea) {r : List VmArea}
    → append_area dst capacity v ≡ some r
    → r ≡ coalesce_step dst v
unfolding append_area coalesce_step
append_area-eq_some [] capacity v e = ground arith
append_area-eq_some (l ∷ dst) capacity v e = ground arith

append_area_fits :
    (dst : List VmArea) (capacity : ℕ) (v : VmArea)
    → v.start ≤ v.end
    → length dst < capacity
    → append_area dst capacity v ≡ some (coalesce_step dst v)
unfolding append_area coalesce_step
append_area_fits [] capacity v h room = ground arith
append_area_fits (l ∷ dst) capacity v h room = ground arith

pub append_each_fits :
    (lo hi : ℕ) (dst : List VmArea) (capacity : ℕ) (vs : List VmArea)
    → OrderedIn lo hi vs
    → length dst + length vs ≤ capacity
    → append_each dst capacity vs ≡ some (coalesce_loop dst vs)
unfolding append_each coalesce_loop
append_each_fits lo hi dst capacity [] h room = refl
append_each_fits lo hi dst capacity (v ∷ vs) h room =
    rw (append_area_fits dst capacity v h.1 (omega arith)) (
      append_each_fits v.end hi (coalesce_step dst v) capacity vs h.2
        (omega (arith, length-coalesce_step dst v)))

pub length-coalesce_loop :
    (dst vs : List VmArea) → length (coalesce_loop dst vs) ≤ length dst + length vs
unfolding coalesce_loop
length-coalesce_loop dst [] = omega arith
length-coalesce_loop dst (v ∷ vs) =
    omega (arith, length-coalesce_loop (coalesce_step dst v) vs, length-coalesce_step dst v)
