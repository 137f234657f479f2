-- ===== src/Pmm/Count.antt =====
-- `pmm_core_free_page_count` counts the pages without a reference, and each allocation takes one.
use drunix_os.Base.{
  ℕ, zero, suc, ◌+◌, ◌≤◌, ◌<◌, ◌≡◌, refl, ◌≢◌, ◌⊎◌, inl, inr, false, ◌||◌, arith, ℕ_discrete, ltb,
  ◌==◌, if◌then◌else◌,
}
use drunix_os.Pmm.Core.{
  PmmState, has_storage, bitmap_test, ref, alloc_page, count_free, free_page_count,
}
use drunix_os.Pmm.Inv.{IsValid}
use drunix_os.Pmm.Alloc.{max_pages-alloc_page, Exhausted, Allocated, alloc_page_lowest, max_managed}

-- One more page in use below `n` is one free page less.
count_free_taken :
    (s t : PmmState) (page n : ℕ)
    → bitmap_test s page ≡ false
    → ((q : ℕ) → q < n → bitmap_test t q ≡ ((page == q) || bitmap_test s q))
    → count_free s n ≡ count_free t n + (if ltb page n then 1 else 0)
unfolding count_free
count_free_taken s t page zero free marks = ground arith
count_free_taken s t page (suc n) free marks = elim (ℕ_discrete page n) [
  | yes same ↦
      let here : bitmap_test s n ≡ false = rw (← same) free in
      ground (
        arith,
        marks n (omega arith),
        here,
        count_free_taken s t page n free (λ q h. marks q (omega arith)),
      )
  | no other ↦ ground (
    arith,
    marks n (omega arith),
    count_free_taken s t page n free (λ q h. marks q (omega arith)),
  )
]

count_free_none :
    (s : PmmState) (n : ℕ)
    → IsValid s
    → n ≤ s.max_pages
    → ((q : ℕ) → q < n → ref s q ≢ 0)
    → count_free s n ≡ 0
unfolding count_free
count_free_none s zero v h taken = refl
count_free_none s (suc n) v h taken = ground (
  arith,
  v.agree n (omega arith),
  taken n,
  count_free_none s n v (omega arith) (λ q p. taken q (omega arith)),
)

-- Where an allocation succeeds there is one free page less; it gives no page exactly where none is
-- free.
pub free_page_count-alloc_page :
    (s : PmmState)
    → IsValid s
    → 0 < s.max_pages
    → s.max_pages ≤ max_managed
    → ((alloc_page s ≡ (0, s)) × (free_page_count s ≡ 0))
      ⊎ ((0 < free_page_count s) × (free_page_count (alloc_page s).1 + 1 ≡ free_page_count s))
unfolding free_page_count has_storage
free_page_count-alloc_page s v pos bound = choose (alloc_page_lowest s v pos bound)
  where
    choose :
        Exhausted s (alloc_page s) ⊎ Allocated s (alloc_page s)
        → ((alloc_page s ≡ (0, s)) × (free_page_count s ≡ 0))
          ⊎ ((0 < free_page_count s) × (free_page_count (alloc_page s).1 + 1 ≡ free_page_count s))
    choose (inl (same, taken)) =
        inl (same, ground (arith, count_free_none s s.max_pages v (omega arith) taken))
    choose (inr (page, within, addr, free, lower, refs, v')) =
        let size = max_pages-alloc_page s in
        let taken =
          count_free_taken s (alloc_page s).1 page s.max_pages (ground (arith, v.agree page within))
            (λ q h. ground (arith, size, v.agree q h, v'.agree q, refs q)) in
        inr (ground (arith, taken), ground (arith, taken, size))
