-- ===== src/Blk/Names.antt =====
-- Names in the registry of kernel/drivers/blkdev.c: a lookup gives what was registered.
use drunix_os.Blk.Inside.{put_entry-full, put_entry-room}
use drunix_os.Blk.Slots.{alloc_slot-is_free}
use drunix_os.Blk.Table.{
  disk_entry, is_known, name_is_valid, put_entry, register_disk, is_free, Ops, DevEntry, alloc_slot,
  find_index, get, name_equals,
}
use drunix_os.Base.{
  ℕ, zero, suc, ◌+◌, ◌-◌, ◌≤◌, ◌≡◌, refl, sym, ap, ◌∙◌, inl, inr, Bool, true, false, not, ◌&&◌,
  ◌||◌, Option, none, some, List, [], ◌∷◌, arith, ◌==◌, if◌then◌else◌, Bool-cases, Option-cases,
  ◌>>=◌, get_elem?, set,
}

-- The operations of the first entry in use that has the name.
unfoldable pub lookup : List DevEntry → List ℕ → Option Ops
lookup [] name = none
lookup (e ∷ es) name =
    if not (is_free e) && name_equals e.info.name name then e.ops else lookup es name

found_at : List DevEntry → Option ℕ → ℕ → Option Ops
found_at es none i = none
found_at es (some k) i = get_elem? es (k - i) >>= λ e. e.ops

find_index-le :
    (es : List DevEntry) (name : List ℕ) (i k : ℕ) → find_index es name i ≡ some k → i ≤ k
unfolding find_index
find_index-le [] name i k h = absurd (cc)
find_index-le (e ∷ es) name i k h = ground (arith, find_index-le es name (i + 1) k)

found_at-cons :
    (e : DevEntry) (es : List DevEntry) (r : Option ℕ) (i : ℕ)
    → ((k : ℕ) → r ≡ some k → i + 1 ≤ k)
    → found_at (e ∷ es) r i ≡ found_at es r (i + 1)
unfolding found_at
found_at-cons e es none i h = refl
found_at-cons e es (some k) i h =
    let above = h k refl in
    let step : k - i ≡ suc (k - (i + 1)) = omega arith in
    ap (λ (n : ℕ). get_elem? (e ∷ es) n >>= λ t. t.ops) step

found_at-lookup :
    (es : List DevEntry) (name : List ℕ) (i : ℕ)
    → found_at es (find_index es name i) i ≡ lookup es name
unfolding find_index lookup
found_at-lookup [] name i = unfold found_at in refl
found_at-lookup (e ∷ es) name i =
    elim (Bool-cases (not (is_free e) && name_equals e.info.name name)) [
      | inl hit ↦
          let here : i - i ≡ 0 = omega arith in
          simp hit (unfold found_at in ap (λ (n : ℕ). get_elem? (e ∷ es) n >>= λ t. t.ops) here)
      | inr miss ↦ simp miss (
          found_at-cons e es (find_index es name (i + 1)) i (find_index-le es name (i + 1))
          ∙ found_at-lookup es name (i + 1))
    ]

found_at-bind :
    (es : List DevEntry) (r : Option ℕ)
    → (r >>= λ idx. get_elem? es idx >>= λ e. e.ops) ≡ found_at es r 0
unfolding found_at
found_at-bind es none = refl
found_at-bind es (some k) =
    let whole : k ≡ k - 0 = omega arith in ap (λ (n : ℕ). get_elem? es n >>= λ e. e.ops) whole

pub get-lookup : (es : List DevEntry) (name : List ℕ) → get es name ≡ lookup es name
unfolding get
get-lookup es name = found_at-bind es (find_index es name 0) ∙ found_at-lookup es name 0

name_equals_refl : (name : List ℕ) → name_equals name name ≡ true
unfolding name_equals
name_equals_refl [] = refl
name_equals_refl (a ∷ name) = ground (arith, name_equals_refl name)

alloc_slot-used :
    (e : DevEntry) (es : List DevEntry) (i : ℕ)
    → is_free e ≡ false
    → alloc_slot es (i + 1) ≡ alloc_slot (e ∷ es) i
unfolding alloc_slot
alloc_slot-used e es i taken = ground arith

-- An entry put into the first free slot is what its own name finds, if nothing had the name.
lookup-set_own :
    (es : List DevEntry) (i j : ℕ) (new : DevEntry) (name : List ℕ)
    → alloc_slot es i ≡ some (i + j)
    → find_index es name i ≡ none
    → is_free new ≡ false
    → name_equals new.info.name name ≡ true
    → lookup (set es j new) name ≡ new.ops
unfolding alloc_slot find_index lookup
lookup-set_own [] i j new name slot fresh used same = absurd (cc)
lookup-set_own (e ∷ es) i zero new name slot fresh used same = simp (used, same) refl
lookup-set_own (e ∷ es) i (suc j) new name slot fresh used same =
    elim (Bool-cases (not (is_free e) && name_equals e.info.name name)) [
      | inl hit ↦ absurd (ground arith)
      | inr miss ↦ elim (Bool-cases (is_free e)) [
        | inl free ↦ absurd (ground arith)
        | inr taken ↦
            let next : i + suc j ≡ i + 1 + j = omega arith in
            let slot' : alloc_slot es (i + 1) ≡ some (i + 1 + j) =
              alloc_slot-used e es i taken ∙ slot ∙ ap some next in
            let fresh' : find_index es name (i + 1) ≡ none = ground arith in
            simp miss (lookup-set_own es (i + 1) j new name slot' fresh' used same)
      ]
    ]

-- It changes nothing for the other names.
lookup-set_other :
    (es : List DevEntry) (i j : ℕ) (new : DevEntry) (name : List ℕ)
    → alloc_slot es i ≡ some (i + j)
    → name_equals new.info.name name ≡ false
    → lookup (set es j new) name ≡ lookup es name
unfolding alloc_slot lookup
lookup-set_other [] i j new name slot other = refl
lookup-set_other (e ∷ es) i zero new name slot other = elim (Bool-cases (is_free e)) [
  | inl free ↦ simp (free, other) (ground arith)
  | inr taken ↦
      let (k, f, far, at, free) =
        alloc_slot-is_free es (i + 1) (i + 0) (alloc_slot-used e es i taken ∙ slot) in
      absurd (omega (arith, far))
]
lookup-set_other (e ∷ es) i (suc j) new name slot other = elim (Bool-cases (is_free e)) [
  | inl free ↦ absurd (ground arith)
  | inr taken ↦
      let next : i + suc j ≡ i + 1 + j = omega arith in
      let slot' : alloc_slot es (i + 1) ≡ some (i + 1 + j) =
        alloc_slot-used e es i taken ∙ slot ∙ ap some next in
      ap (λ r. if not (is_free e) && name_equals e.info.name name then e.ops else r)
        (lookup-set_other es (i + 1) j new name slot' other)
]

put_entry-get :
    (table : List DevEntry) (entry : ℕ → DevEntry) (name : List ℕ) (after : List DevEntry) (o : Ops)
    → find_index table name 0 ≡ none
    → ((idx : ℕ)
        → (is_free (entry idx) ≡ false)
          × ((entry idx).info.name ≡ name)
          × ((entry idx).ops ≡ some o))
    → put_entry table entry ≡ (true, after)
    → (get after name ≡ some o)
      × ((other : List ℕ) → name_equals name other ≡ false → get after other ≡ get table other)
put_entry-get table entry name after o fresh proper done =
    elim (Option-cases (alloc_slot table 0)) [
      | inl full ↦ absurd (ground (arith, put_entry-full table entry full))
      | inr (idx, slot) ↦
          let (used, named, given) = proper idx in
          let slot' : alloc_slot table 0 ≡ some (0 + idx) = ground arith in
          let same : after ≡ set table idx (entry idx) =
            ground (arith, put_entry-room table entry idx slot) in
          rw same (
            get-lookup (set table idx (entry idx)) name
                ∙ lookup-set_own table 0 idx (entry idx) name slot' fresh used
                    (ap (λ n. name_equals n name) named ∙ name_equals_refl name)
                ∙ given,
            λ other apart.
                get-lookup (set table idx (entry idx)) other
                ∙ lookup-set_other table 0 idx (entry idx) other slot'
                    (ap (λ n. name_equals n other) named ∙ apart)
                ∙ sym (get-lookup table other),
          )
    ]

known_none :
    (r : Option ℕ) → elim r as (λ _. Bool) [ none ↦ false | some i ↦ true ] ≡ false → r ≡ none
known_none none h = refl
known_none (some i) h = absurd (ground arith)

-- After a disk has been registered its name gives its operations, and every other name gives what
-- it gave before.
pub register_disk-get :
    (table : List DevEntry) (name : List ℕ) (major minor sectors : ℕ) (ops : Ops)
    (after : List DevEntry)
    → register_disk table name major minor sectors (some ops) ≡ (true, after)
    → (get after name ≡ some ops)
      × ((other : List ℕ) → name_equals name other ≡ false → get after other ≡ get table other)
unfolding register_disk name_is_valid
register_disk-get table name major minor sectors ops after h =
    elim (Bool-cases (not (name_is_valid name) || sectors == 0 || is_known table name)) [
      | inl bad ↦ absurd (ground arith)
      | inr fine ↦
          let placed : put_entry table (λ idx. disk_entry name major minor sectors ops)
              ≡ (true, after) =
            ground arith in
          put_entry-get table (λ idx. disk_entry name major minor sectors ops) name after ops
            (known_none (find_index table name 0) (ground arith))
            (λ idx. unfold disk_entry is_free in (ground arith, refl, refl)) placed
    ]
