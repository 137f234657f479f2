-- ===== src/Vma/View.antt =====
-- What a table of areas says of each address, forgetting how the range is cut into areas; the
-- order that the tables keep; and what merging neighbours does to both.
use drunix_os.Base.{
  ℕ, ◌+◌, ◌-◌, ◌%◌, ◌^◌, ◌≤◌, ◌<◌, ◌≡◌, refl, Bool, ◌&&◌, ltb, leb, if◌then◌else◌, List, [], ◌∷◌,
  reverse_onto, Option, none, some, arith,
}
use drunix_os.Vma.Area.{VmArea, FileRef, is_file_backed}

-- What an access at one address may do, and which byte of which file backs it.
pub record Attr : Type 0 where
  pub flags : ℕ
  pub kind : ℕ
  pub file_offset : ℕ
  pub file_size : ℕ
  pub file_ref : FileRef

unfoldable pub attr_at : VmArea → ℕ → Attr
attr_at v addr = record {
  flags = v.flags;
  kind = v.kind;
  file_offset =
      if is_file_backed v then (v.file_offset + (addr - v.start)) % 2 ^ 32 else v.file_offset;
  file_size = v.file_size;
  file_ref = v.file_ref;
}

abbrev pub covers : VmArea → ℕ → Bool
covers v addr = leb v.start addr && ltb addr v.end

-- The attributes of the area that `vma_find` gives.
unfoldable pub view : List VmArea → ℕ → Option Attr
view [] addr = none
view (v ∷ vs) addr = if covers v addr then some (attr_at v addr) else view vs addr

-- Areas between `lo` and `hi`, by ascending addresses and without overlap.
abbrev pub OrderedIn : ℕ → ℕ → List VmArea → Type 0
OrderedIn lo hi [] = lo ≤ hi
OrderedIn lo hi (v ∷ vs) = (lo ≤ v.start) × (v.start ≤ v.end) × OrderedIn v.end hi vs

-- The same for a list that holds the highest area first.
abbrev pub EndsBy : ℕ → List VmArea → Type 0
EndsBy hi [] = Unit {0}
EndsBy hi (v ∷ vs) = (v.end ≤ hi) × (v.start ≤ v.end) × EndsBy v.start vs

pub OrderedIn-le : (lo hi : ℕ) (vs : List VmArea) → OrderedIn lo hi vs → lo ≤ hi
OrderedIn-le lo hi [] h = h
OrderedIn-le lo hi (v ∷ vs) h = omega (arith, OrderedIn-le v.end hi vs h.2)

pub OrderedIn-weaken :
    (lo lo' hi : ℕ) (vs : List VmArea) → lo' ≤ lo → OrderedIn lo hi vs → OrderedIn lo' hi vs
OrderedIn-weaken lo lo' hi [] p h = omega arith
OrderedIn-weaken lo lo' hi (v ∷ vs) p h = (omega arith, h.1, h.2)

pub EndsBy-weaken : (hi hi' : ℕ) (vs : List VmArea) → hi ≤ hi' → EndsBy hi vs → EndsBy hi' vs
EndsBy-weaken hi hi' [] p h = tt
EndsBy-weaken hi hi' (v ∷ vs) p h = (omega arith, h.1, h.2)

pub view_below :
    (lo hi : ℕ) (vs : List VmArea) (a : ℕ) → OrderedIn lo hi vs → a < lo → view vs a ≡ none
unfolding view
view_below lo hi [] a h p = refl
view_below lo hi (v ∷ vs) a h p = ground (arith, view_below v.end hi vs a h.2)

pub view_past : (hi : ℕ) (vs : List VmArea) (a : ℕ) → EndsBy hi vs → hi ≤ a → view vs a ≡ none
unfolding view
view_past hi [] a h p = refl
view_past hi (v ∷ vs) a h p = ground (arith, view_past v.start vs a h.2)

-- Turning the list round keeps the order and the view.
pub reverse_onto-OrderedIn :
    (lo hi : ℕ) (dst vs : List VmArea)
    → EndsBy lo dst
    → OrderedIn lo hi vs
    → OrderedIn 0 hi (reverse_onto dst vs)
reverse_onto-OrderedIn lo hi [] vs d h = OrderedIn-weaken lo 0 hi vs (omega arith) h
reverse_onto-OrderedIn lo hi (v ∷ dst) vs d h =
    reverse_onto-OrderedIn v.start hi dst (v ∷ vs) d.2
      (omega arith, d.1, OrderedIn-weaken lo v.end hi vs d.0 h)

pub view-reverse_onto :
    (lo hi : ℕ) (dst vs : List VmArea) (a : ℕ)
    → EndsBy lo dst
    → OrderedIn lo hi vs
    → view (reverse_onto dst vs) a ≡ (if ltb a lo then view dst a else view vs a)
unfolding view
view-reverse_onto lo hi [] vs a d h = ground (arith, view_below lo hi vs a h)
view-reverse_onto lo hi (v ∷ dst) vs a d h = ground (
  arith,
  view-reverse_onto v.start hi dst (v ∷ vs) a d.2
      (omega arith, d.1, OrderedIn-weaken lo v.end hi vs d.0 h),
  view_past v.start dst a d.2,
  view_below lo hi vs a h,
)
