-- ===== src/Commit/Admit.antt =====
-- What kernel/mm/commit.c admits, and that a release undoes a reservation.
use drunix_os.Commit.Account.{release, Account, page_size, pages_for_bytes, reserve}
use drunix_os.Base.{
  ℕ, ◌+◌, ◌-◌, ◌*◌, ◌/◌, ◌%◌, ◌^◌, ◌≤◌, ◌<◌, ◌≡◌, refl, ◌↔◌, ◌⊎◌, inl, inr, Bool, true, false, ◌||◌,
  none, some, arith, ltb, ◌==◌, if◌then◌else◌, Bool-cases, Option-cases,
}

-- The least number of pages that hold so many bytes.
abbrev pub IsPagesFor : ℕ → ℕ → Type 0
IsPagesFor bytes pages = (bytes ≤ pages * page_size) × (pages * page_size < bytes + page_size)

-- Three cases that exclude one another: no bytes are asked for, which changes nothing; or the least number
-- of pages that holds the bytes is added, where rounding up does not wrap and the free pages cover it
-- together with those committed; or the reservation is refused and changes nothing.
abbrev pub Answer : ℕ → ℕ → ℕ → Bool × Account → Type 0
Answer free_pages committed bytes r =
    ((bytes ≡ 0) × (r ≡ (true, some committed)))
    ⊎ ((0 < bytes)
        × (bytes + page_size ≤ 2 ^ 32)
        × ((pages : ℕ) × IsPagesFor bytes pages
            × (committed + pages ≤ free_pages)
            × (r ≡ (true, some (committed + pages)))))
    ⊎ ((0 < bytes)
        × ((2 ^ 32 < bytes + page_size)
            ⊎ ((pages : ℕ) × IsPagesFor bytes pages × (free_pages < committed + pages)))
        × (r ≡ (false, some committed)))

reserve-large :
    (free_pages committed bytes : ℕ)
    → pages_for_bytes bytes ≡ none
    → reserve free_pages (some committed) bytes ≡ (false, some committed)
unfolding reserve
reserve-large free_pages committed bytes e = rw (reserve, e) refl

reserve-pages :
    (free_pages committed bytes pages : ℕ)
    → pages_for_bytes bytes ≡ some pages
    → reserve free_pages (some committed) bytes ≡ (
        if pages == 0
        then (true, some committed)
        else if ltb (2 ^ 32 - 1 - pages) committed || ltb free_pages ((committed + pages) % 2 ^ 32)
        then (false, some committed)
        else (true, some ((committed + pages) % 2 ^ 32)))
unfolding reserve
reserve-pages free_pages committed bytes pages e = rw (reserve, e) refl

pages_for_bytes-IsPagesFor :
    (bytes pages : ℕ)
    → pages_for_bytes bytes ≡ some pages
    → IsPagesFor bytes pages × (pages ≤ 2 ^ 20) × ((pages ≡ 0) ↔ (bytes ≡ 0))
unfolding pages_for_bytes
pages_for_bytes-IsPagesFor bytes pages e = elim (Bool-cases (bytes == 0)) [
  | inl nothing ↦ ground arith
  | inr some_bytes ↦
      let fits : (bytes + page_size - 1) / page_size ≡ pages = ground arith in ground arith
]

pages_for_bytes-some :
    (bytes pages : ℕ)
    → pages_for_bytes bytes ≡ some pages
    → (bytes ≡ 0) ⊎ (bytes + page_size ≤ 2 ^ 32)
unfolding pages_for_bytes
pages_for_bytes-some bytes pages e = elim (Bool-cases (bytes == 0)) [
  | inl nothing ↦ inl (ground arith)
  | inr some_bytes ↦ inr (ground arith)
]

pages_for_bytes-none :
    (bytes : ℕ) → pages_for_bytes bytes ≡ none → (0 < bytes) × (2 ^ 32 < bytes + page_size)
unfolding pages_for_bytes
pages_for_bytes-none bytes e = ground arith

-- `vm_commit_reserve` of a process with an address space, for any 32-bit counts of free and committed
-- pages: no bytes are granted and change nothing; some bytes are granted exactly if rounding them up to
-- pages stays below 2^32 and the free pages cover those committed and the least number of pages that
-- holds the bytes, which is then added; else they are refused, and nothing changes.
pub reserve-Answer :
    (free_pages committed bytes : ℕ)
    → free_pages < 2 ^ 32
    → committed < 2 ^ 32
    → Answer free_pages committed bytes (reserve free_pages (some committed) bytes)
reserve-Answer free_pages committed bytes fh ch = elim (Option-cases (pages_for_bytes bytes)) [
  | inl large ↦
      let (some_bytes, wraps) = pages_for_bytes-none bytes large in
      inr (inr (some_bytes, inl wraps, reserve-large free_pages committed bytes large))
  | inr (pages, e) ↦
      let (for_bytes, few, nothing) = pages_for_bytes-IsPagesFor bytes pages e in
      let step = reserve-pages free_pages committed bytes pages e in
      elim (Bool-cases (pages == 0)) [
        | inl z ↦ inl (ground arith, ground arith)
        | inr p ↦
            let wanted : 0 < bytes = ground arith in
            elim (Bool-cases (ltb free_pages (committed + pages))) [
              | inl over ↦ inr (inr (wanted, inr (pages, for_bytes, ground arith), ground arith))
              | inr under ↦
                  let small : bytes + page_size ≤ 2 ^ 32 =
                    ground (arith, pages_for_bytes-some bytes pages e) in
                  inr (inl (wanted, small, (pages, for_bytes, ground arith, ground arith)))
            ]
      ]
]

release-pages :
    (committed bytes pages : ℕ)
    → pages_for_bytes bytes ≡ some pages
    → release (some (committed + pages)) bytes ≡ some committed
unfolding release
release-pages committed bytes pages e = rw (release, e) (ground arith)

-- A release of the bytes of a reservation that was admitted gives back the account as it was.
pub release-reserve :
    (free_pages committed bytes : ℕ) (after : Account)
    → committed < 2 ^ 32
    → reserve free_pages (some committed) bytes ≡ (true, after)
    → release after bytes ≡ some committed
release-reserve free_pages committed bytes after h e = elim (Option-cases (pages_for_bytes bytes)) [
  | inl large ↦ absurd (ground (arith, reserve-large free_pages committed bytes large))
  | inr (pages, p) ↦
      let (for_bytes, few, nothing) = pages_for_bytes-IsPagesFor bytes pages p in
      let same : after ≡ some (committed + pages) =
        ground (arith, reserve-pages free_pages committed bytes pages p) in
      rw same (release-pages committed bytes pages p)
]
