-- ===== src/Vma/Cut.antt =====
-- Replacing every area of a table by pieces inside it: the common core of unmapping and of changing
-- protection. What the rebuilding loop makes of the pieces is ordered, and says of each address what
-- the pieces say.
use drunix_os.Base.{
  ltb, ◌&&◌, leb, Bool, ℕ, ◌≤◌, ◌≡◌, refl, List, [], ◌∷◌, ◌++◌, reverse_onto, Option, none, some,
  arith,
}
use drunix_os.Vma.Area.{VmArea, is_file_backed, slice}
use drunix_os.Vma.Table.{coalesce_step, coalesce_loop}
use drunix_os.Vma.View.{
  Attr, attr_at, view, OrderedIn, view_below, view_past, reverse_onto-OrderedIn, view-reverse_onto,
}
use drunix_os.Vma.Merge.{coalesce_loop-EndsBy, view-coalesce_loop}

abbrev pub or_else : Option Attr → Option Attr → Option Attr
or_else none y = y
or_else (some x) y = some x

pub view-append :
    (xs ys : List VmArea) (a : ℕ) → view (xs ++ ys) a ≡ or_else (view xs a) (view ys a)
unfolding view
view-append [] ys a = refl
view-append (x ∷ xs) ys a = ground (arith, view-append xs ys a)

pub OrderedIn-append :
    (lo mid hi : ℕ) (xs ys : List VmArea)
    → OrderedIn lo mid xs
    → OrderedIn mid hi ys
    → OrderedIn lo hi (xs ++ ys)
OrderedIn-append lo mid hi [] [] h k = omega arith
OrderedIn-append lo mid hi [] (y ∷ ys) h k = (omega arith, k.1, k.2)
OrderedIn-append lo mid hi (x ∷ xs) ys h k = (h.0, h.1, OrderedIn-append x.end mid hi xs ys h.2 k)

pub coalesce_loop-append :
    (dst xs ys : List VmArea)
    → coalesce_loop dst (xs ++ ys) ≡ coalesce_loop (coalesce_loop dst xs) ys
unfolding coalesce_loop
coalesce_loop-append dst [] ys = refl
coalesce_loop-append dst (x ∷ xs) ys = coalesce_loop-append (coalesce_step dst x) xs ys

-- What the table holds after the rebuilding loop has appended `vs` and been turned round.
pub rebuilt-OrderedIn :
    (hi : ℕ) (vs : List VmArea)
    → OrderedIn 0 hi vs
    → OrderedIn 0 hi (reverse_onto (coalesce_loop [] vs) [])
rebuilt-OrderedIn hi vs h =
    reverse_onto-OrderedIn hi hi (coalesce_loop [] vs) [] (coalesce_loop-EndsBy 0 hi [] vs tt h)
      (omega arith)

pub view_rebuilt :
    (hi : ℕ) (vs : List VmArea) (a : ℕ)
    → OrderedIn 0 hi vs
    → view (reverse_onto (coalesce_loop [] vs) []) a ≡ view vs a
unfolding view
view_rebuilt hi vs a h = ground (
  arith,
  view-reverse_onto hi hi (coalesce_loop [] vs) [] a (coalesce_loop-EndsBy 0 hi [] vs tt h)
      (omega arith),
  view-coalesce_loop 0 hi [] vs a tt h,
  view_past hi (coalesce_loop [] vs) a (coalesce_loop-EndsBy 0 hi [] vs tt h),
)

abbrev pub in_range : ℕ → ℕ → ℕ → Bool
in_range start end a = leb start a && ltb a end

-- Cutting an area does not change what it says of the addresses that stay.
pub attr_at-slice :
    (v : VmArea) (start end a : ℕ)
    → v.start ≤ start
    → start ≤ a
    → attr_at (slice v start end) a ≡ attr_at v a
unfolding attr_at slice is_file_backed
attr_at-slice v start end a h k = ground arith

module _ (pieces : VmArea → List VmArea) where
  -- All the pieces, in the order of the areas.
  unfoldable pub cut : List VmArea → List VmArea
  cut [] = []
  cut (v ∷ vs) = pieces v ++ cut vs

module _ (pieces : VmArea → List VmArea)
    (inside : (v : VmArea) → v.start ≤ v.end → OrderedIn v.start v.end (pieces v)) where
  pub cut-OrderedIn :
      (lo hi : ℕ) (vs : List VmArea) → OrderedIn lo hi vs → OrderedIn lo hi (cut pieces vs)
  unfolding cut
  cut-OrderedIn lo hi [] h = h
  cut-OrderedIn lo hi (v ∷ vs) h =
      OrderedIn-append lo v.end hi (pieces v) (cut pieces vs)
        (OrderedIn-append lo v.start v.end [] (pieces v) h.0 (inside v h.1))
        (cut-OrderedIn v.end hi vs h.2)

  -- What the pieces of one area say, address by address, the pieces of the table say.
  pub view-cut :
      (f : Option Attr → Option Attr) (lo hi : ℕ) (vs : List VmArea) (a : ℕ)
      → f none ≡ none
      → ((v : VmArea) → v.start ≤ v.end → view (pieces v) a ≡ f (view (v ∷ []) a))
      → OrderedIn lo hi vs
      → view (cut pieces vs) a ≡ f (view vs a)
  unfolding cut view
  view-cut f lo hi [] a strict each h = ground arith
  view-cut f lo hi (v ∷ vs) a strict each h = ground (
    arith,
    view-append (pieces v) (cut pieces vs) a,
    each v h.1,
    view-cut f v.end hi vs a strict each h.2,
    view_below v.end hi (cut pieces vs) a (cut-OrderedIn v.end hi vs h.2),
    view_below v.start v.end (pieces v) a (inside v h.1),
    view_past v.end (v ∷ []) a,
  )
