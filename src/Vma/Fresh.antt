-- ===== src/Vma/Fresh.antt =====
-- `vma_map_anonymous` and `vma_map_file_private`: what a new mapping covers, and when there is one.
use drunix_os.Base.{
  ℕ, ◌+◌, ◌%◌, ◌^◌, ◌≤◌, ◌<◌, ◌≡◌, ◌≢◌, ◌⊎◌, inl, inr, Bool, ltb, Bool-cases, true, none, some,
  List, [], ◌∷◌, arith, if◌then◌else◌, Option-cases, length,
}
use drunix_os.Vma.Area.{VmArea, FileRef, kind_generic, kind_stack}
use drunix_os.Vma.Table.{find_kind, range_is_free}
use drunix_os.Vma.Process.{
  Process, done, table, current_brk, ensure_capacity, add, insert_area, plain_area,
}
use drunix_os.Vma.View.{attr_at, view, covers, OrderedIn, OrderedIn-le}
use drunix_os.Vma.Mapping.{
  page_align_up, search_low, search_high, stack_guard_gap, find_topdown_gap, file_area,
  map_anonymous, map_file_private,
}
use drunix_os.Vma.Insert.{insert_area-view, insert_area_total, view-all_clear}
use drunix_os.Vma.Gap.{last_page, search_sound, search_topmost}

find_kind-le :
    (lo hi kind : ℕ) (vs : List VmArea) (v : VmArea)
    → OrderedIn lo hi vs
    → find_kind vs kind ≡ some v
    → v.start ≤ hi
unfolding find_kind
find_kind-le lo hi kind [] v h e = absurd (ground arith)
find_kind-le lo hi kind (w ∷ vs) v h e =
    ground (arith, OrderedIn-le w.end hi vs h.2, find_kind-le w.end hi kind vs v h.2)

-- Where a range that the search gives lies, within the bounds of the table.
find_topdown_gap-within :
    (mmap_min : ℕ) (p : Process) (hint len hi r : ℕ)
    → OrderedIn 0 hi (table p)
    → hi ≤ last_page
    → find_topdown_gap mmap_min p hint len ≡ some r
    → (mmap_min ≤ r)
      × (page_align_up (current_brk p) ≤ r)
      × (r + page_align_up len ≤ hi)
      × (range_is_free (table p) r (r + page_align_up len) ≡ true)
unfolding find_topdown_gap search_low search_high
find_topdown_gap-within mmap_min p hint len hi r h bound e =
    elim (Option-cases (find_kind (table p) kind_stack)) [
      | inl bad ↦ absurd (ground arith)
      | inr (stack, found) ↦
          let below = find_kind-le 0 hi kind_stack (table p) stack h found in
          ground (
            arith,
            search_sound (table p) (search_low mmap_min p) (search_high stack) hint
                (page_align_up len) hi r h bound,
          )
    ]

-- In an ordered table whose areas end at 0xfffff000 or below, no address of a range that the search
-- gives is mapped. The range lies at or above the lowest address for mappings and the break of the
-- heap, rounded up to a page; and it ends at or below the start of the stack, and by the guard gap
-- of 1 MiB or more below it unless the stack starts in the first MiB.
pub find_topdown_gap_sound :
    (mmap_min : ℕ) (p : Process) (hint len hi r : ℕ)
    → OrderedIn 0 hi (table p)
    → hi ≤ last_page
    → find_topdown_gap mmap_min p hint len ≡ some r
    → ((a : ℕ) → r ≤ a → a < r + page_align_up len → view (table p) a ≡ none)
      × (mmap_min ≤ r)
      × (page_align_up (current_brk p) ≤ r)
      × ((stack : VmArea) × (find_kind (table p) kind_stack ≡ some stack)
          × (r + page_align_up len ≤ stack.start)
          × ((r + page_align_up len + stack_guard_gap ≤ stack.start)
              ⊎ (stack.start ≤ stack_guard_gap)))
unfolding find_topdown_gap search_high range_is_free
find_topdown_gap_sound mmap_min p hint len hi r h bound e =
    let (low, above, within, free) = find_topdown_gap-within mmap_min p hint len hi r h bound e in
    elim (Option-cases (find_kind (table p) kind_stack)) [
      | inl bad ↦ absurd (ground arith)
      | inr (stack, found) ↦
          let below = find_kind-le 0 hi kind_stack (table p) stack h found in
          let bounds =
            search_sound (table p) (search_low mmap_min p) (search_high stack) hint
              (page_align_up len) hi r h bound in
          (
            λ a from to.
                view-all_clear (table p) r (r + page_align_up len) a (ground arith) from to,
            low,
            above,
            (
              stack,
              found,
              ground (arith, bounds),
              elim (Bool-cases (ltb stack_guard_gap stack.start)) [
                | inl over ↦ inl (ground (arith, bounds))
                | inr under ↦ inr (ground arith)
              ],
            ),
          )
    ]

-- `q` is `p` with a mapping for `area`, none of whose addresses was mapped: the table is ordered,
-- and every other address is as it was.
abbrev pub Maps : ℕ → Process → VmArea → Process → Type 0
Maps hi p area q =
    OrderedIn 0 hi (table q)
    × ((a : ℕ) → covers area a ≡ true → view (table p) a ≡ none)
    × ((a : ℕ)
        → view (table q) a ≡ (if covers area a then some (attr_at area a) else view (table p) a))

insert_area-Maps :
    (memory : Bool) (p q : Process) (area : VmArea) (hi : ℕ)
    → OrderedIn 0 hi (table p)
    → area.end ≤ hi
    → range_is_free (table p) area.start area.end ≡ true
    → insert_area memory p area ≡ (done, q)
    → Maps hi p area q
unfolding range_is_free
insert_area-Maps memory p q area hi h bound free e =
    let (ordered, seen) = insert_area-view memory p q area hi h (ground arith) bound e in
    (
      ordered,
      λ a c.
          view-all_clear (table p) area.start area.end a (ground arith) (ground arith)
            (ground arith),
      seen,
    )

-- The 32-bit sum of the address found and the rounded length.
gap_end :
    (mmap_min : ℕ) (p : Process) (hint len hi r : ℕ)
    → OrderedIn 0 hi (table p)
    → hi ≤ last_page
    → find_topdown_gap mmap_min p hint len ≡ some r
    → (r + page_align_up len) % 2 ^ 32 ≡ r + page_align_up len
gap_end mmap_min p hint len hi r h bound e =
    let (a, b, c, d) = find_topdown_gap-within mmap_min p hint len hi r h bound e in omega arith

-- A successful `vma_map_anonymous` maps the rounded length from the address it gives, with the flags
-- asked for.
pub map_anonymous-Maps :
    (mmap_min : ℕ) (memory : Bool) (p q : Process) (hint len flags hi r : ℕ)
    → OrderedIn 0 hi (table p)
    → hi ≤ last_page
    → map_anonymous mmap_min memory p hint len flags ≡ (done, q, some r)
    → Maps hi p (plain_area r (r + page_align_up len) flags kind_generic) q
unfolding map_anonymous add
map_anonymous-Maps mmap_min memory p q hint len flags hi r h bound e =
    elim (Option-cases (find_topdown_gap mmap_min p hint len)) [
      | inl bad ↦ absurd (ground arith)
      | inr (r', found') ↦
          let same : r' ≡ r = ground arith in
          let found = rw same at found' in
          let (a, b, c, free) = find_topdown_gap-within mmap_min p hint len hi r h bound found in
          insert_area-Maps memory p q (plain_area r (r + page_align_up len) flags kind_generic) hi h
            c free (ground (arith, gap_end mmap_min p hint len hi r h bound found))
    ]

-- A successful `vma_map_file_private` maps the rounded length from the address it gives onto the
-- file's bytes from the offset asked for.
pub map_file_private-Maps :
    (mmap_min : ℕ) (memory : Bool) (p q : Process) (hint len flags : ℕ) (file : FileRef)
    (offset size hi r : ℕ)
    → OrderedIn 0 hi (table p)
    → hi ≤ last_page
    → map_file_private mmap_min memory p hint len flags file offset size ≡ (done, q, some r)
    → Maps hi p (file_area r (r + page_align_up len) flags file offset size) q
unfolding map_file_private
map_file_private-Maps mmap_min memory p q hint len flags file offset size hi r h bound e =
    elim (Option-cases (find_topdown_gap mmap_min p hint len)) [
      | inl bad ↦ absurd (ground arith)
      | inr (r', found') ↦
          let same : r' ≡ r = ground arith in
          let found = rw same at found' in
          let (a, b, c, free) = find_topdown_gap-within mmap_min p hint len hi r h bound found in
          insert_area-Maps memory p q (file_area r (r + page_align_up len) flags file offset size)
            hi h c free (ground (arith, gap_end mmap_min p hint len hi r h bound found))
    ]

-- With a stack and without a hint, the search finds an address if some page-aligned range of the
-- rounded length is free between the bounds, and no such range is higher.
pub find_topdown_gap_topmost :
    (mmap_min : ℕ) (p : Process) (len hi a : ℕ) (stack : VmArea)
    → OrderedIn 0 hi (table p)
    → hi ≤ last_page
    → find_kind (table p) kind_stack ≡ some stack
    → 0 < len
    → page_align_up len ≢ 0
    → search_low mmap_min p ≤ a
    → a + page_align_up len ≤ search_high stack
    → a % 4096 ≡ 0
    → range_is_free (table p) a (a + page_align_up len) ≡ true
    → (r : ℕ) × (find_topdown_gap mmap_min p 0 len ≡ some r) × (a ≤ r)
unfolding find_topdown_gap page_align_up
find_topdown_gap_topmost mmap_min p len hi a stack h bound found proper some_page la ae aligned
      free =
    let (r, e, top) =
      search_topmost (table p) (search_low mmap_min p) (search_high stack) (page_align_up len) hi a
        h bound la ae aligned (ground arith) free in
    (r, ground arith, top)

-- If the search finds a range and the table can hold one more entry, `vma_map_anonymous` succeeds.
pub map_anonymous_total :
    (mmap_min : ℕ) (memory : Bool) (p : Process) (hint len flags hi r : ℕ)
    → OrderedIn 0 hi (table p)
    → hi ≤ last_page
    → find_topdown_gap mmap_min p hint len ≡ some r
    → (ensure_capacity memory p (length (table p) + 1)).0 ≡ done
    → (map_anonymous mmap_min memory p hint len flags).0 ≡ done
unfolding map_anonymous add
map_anonymous_total mmap_min memory p hint len flags hi r h bound found room =
    let (a, b, c, free) = find_topdown_gap-within mmap_min p hint len hi r h bound found in
    ground (
      arith,
      gap_end mmap_min p hint len hi r h bound found,
      insert_area_total memory p (plain_area r (r + page_align_up len) flags kind_generic) hi h free
          room,
    )
