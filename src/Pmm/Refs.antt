-- ===== src/Pmm/Refs.antt =====
-- The reference counts of kernel/mm/pmm_core.c, and histories of calls.
use drunix_os.Base.{
  ℕ, ◌+◌, ◌-◌, ◌/◌, ◌≤◌, ◌<◌, ◌≡◌, inl, inr, Bool, true, false, ◌&&◌, List, [], ◌∷◌, arith, ltb,
  ◌==◌, if◌then◌else◌, Bool-cases,
}
use drunix_os.Pmm.Core.{
  PmmState, PmmRange, page_size, has_storage, bitmap_set, bitmap_clear, ref, init, mark_range,
  mark_ranges, alloc_page, incref, decref, free_page,
}
use drunix_os.Pmm.Inv.{
  IsValid, use_page-IsValid, drop_page-IsValid, recount_page-IsValid, ref-set_ref,
  mark_range-IsValid, max_pages-mark_range, max_pages-mark_ranges,
}
use drunix_os.Pmm.Init.{blank, init-IsValid}
use drunix_os.Pmm.Alloc.{alloc_page_lowest, max_managed}

-- A count that is neither 0 nor pinned at 255.
abbrev pub counted : ℕ → Bool
counted count = ltb 0 count && ltb count 255

-- `pmm_core_incref` adds one reference to a managed page that is not pinned at 255, and changes no
-- other count. The bitmap and the counts keep agreeing.
pub incref-ref :
    (s : PmmState) (phys_addr : ℕ)
    → IsValid s
    → IsValid (incref s phys_addr)
      × ((q : ℕ)
          → q < s.max_pages
          → ref (incref s phys_addr) q
            ≡ (if phys_addr / page_size == q && ltb (ref s q) 255 then ref s q + 1 else ref s q))
unfolding incref has_storage bitmap_set
incref-ref s phys_addr v = elim (Bool-cases (ltb (phys_addr / page_size) s.max_pages)) [
  | inr out ↦ (ground arith, λ q h. ground arith)
  | inl within ↦
      let page = phys_addr / page_size in
      let inside : page < s.max_pages = ground arith in
      (
        ground (
          arith,
          v.refcounts_byte page,
          use_page-IsValid s v page inside 1,
          recount_page-IsValid s v page inside (ref s page + 1),
        ),
        λ q h.
            ground (arith, v.refcounts_byte page, ref-set_ref s v page inside (ref s page + 1) q),
      )
]

-- `pmm_core_decref` takes one reference from a managed page that has one and is not pinned, so that
-- the page is free again with its last reference, and changes no other count. The bitmap and the
-- counts keep agreeing.
pub decref-ref :
    (s : PmmState) (phys_addr : ℕ)
    → IsValid s
    → IsValid (decref s phys_addr)
      × ((q : ℕ)
          → q < s.max_pages
          → ref (decref s phys_addr) q
            ≡ (if phys_addr / page_size == q && counted (ref s q) then ref s q - 1 else ref s q))
unfolding decref has_storage bitmap_clear
decref-ref s phys_addr v = elim (Bool-cases (ltb (phys_addr / page_size) s.max_pages)) [
  | inr out ↦ (ground arith, λ q h. ground arith)
  | inl within ↦
      let page = phys_addr / page_size in
      let inside : page < s.max_pages = ground arith in
      (
        ground (
          arith,
          v.refcounts_byte page,
          drop_page-IsValid s v page inside,
          recount_page-IsValid s v page inside (ref s page - 1),
        ),
        λ q h.
            ground (arith, v.refcounts_byte page, ref-set_ref s v page inside (ref s page - 1) q),
      )
]

-- The calls that a kernel makes once the state is initialised.
pub data Call : Type 0 where
  allocs : Call
  increfs decrefs frees : ℕ → Call
  marks : Bool → PmmRange → Call

unfoldable pub step : PmmState → Call → PmmState
step s allocs = (alloc_page s).1
step s (increfs a) = incref s a
step s (decrefs a) = decref s a
step s (frees a) = free_page s a
step s (marks used range) = mark_range used s range

unfoldable pub run : PmmState → List Call → PmmState
run s [] = s
run s (c ∷ cs) = run (step s c) cs

max_pages-step : (s : PmmState) (c : Call) → (step s c).max_pages ≡ s.max_pages
unfolding step alloc_page incref decref free_page bitmap_set bitmap_clear
max_pages-step s allocs = ground arith
max_pages-step s (increfs a) = ground arith
max_pages-step s (decrefs a) = ground arith
max_pages-step s (frees a) = ground arith
max_pages-step s (marks used range) = max_pages-mark_range used s range

step-IsValid :
    (s : PmmState) (c : Call)
    → IsValid s
    → 0 < s.max_pages
    → s.max_pages ≤ max_managed
    → IsValid (step s c)
unfolding step free_page
step-IsValid s allocs v pos bound = ground (arith, alloc_page_lowest s v pos bound)
step-IsValid s (increfs a) v pos bound = (incref-ref s a v).0
step-IsValid s (decrefs a) v pos bound = (decref-ref s a v).0
step-IsValid s (frees a) v pos bound = (decref-ref s a v).0
step-IsValid s (marks used range) v pos bound = mark_range-IsValid used s range v

run-IsValid :
    (s : PmmState) (cs : List Call)
    → IsValid s
    → 0 < s.max_pages
    → s.max_pages ≤ max_managed
    → IsValid (run s cs)
unfolding run
run-IsValid s [] v pos bound = v
run-IsValid s (c ∷ cs) v pos bound =
    run-IsValid (step s c) cs (step-IsValid s c v pos bound) (omega (arith, max_pages-step s c))
      (omega (arith, max_pages-step s c))

max_pages-init :
    (s : PmmState) (usable reserved : List PmmRange)
    → (init s usable reserved).max_pages ≡ s.max_pages
unfolding init
max_pages-init s usable reserved =
    let freed = mark_ranges false (blank s) usable in
    ground (
      arith,
      max_pages-mark_ranges true freed reserved,
      max_pages-mark_ranges false (blank s) usable,
    )

-- After `pmm_core_init` and any history of calls the bitmap marks exactly the pages that have a
-- reference.
pub run-init-IsValid :
    (s : PmmState) (usable reserved : List PmmRange) (cs : List Call)
    → 0 < s.max_pages
    → s.max_pages ≤ max_managed
    → IsValid (run (init s usable reserved) cs)
run-init-IsValid s usable reserved cs pos bound =
    run-IsValid (init s usable reserved) cs (init-IsValid s usable reserved pos (omega arith))
      (omega (arith, max_pages-init s usable reserved))
      (omega (arith, max_pages-init s usable reserved))
