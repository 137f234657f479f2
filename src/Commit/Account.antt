-- ===== src/Commit/Account.antt =====
-- The functions of kernel/mm/commit.c.
use drunix_os.Base.{
  ℕ, ◌+◌, ◌-◌, ◌/◌, ◌%◌, ◌^◌, Bool, true, false, ◌||◌, Option, none, some, ltb, ◌==◌, if◌then◌else◌,
}

-- `PAGE_SIZE`
abbrev pub page_size : ℕ
page_size = 4096

-- The pages written through `pages_out`, or the status -1.
unfoldable pub pages_for_bytes : ℕ → Option ℕ
pages_for_bytes bytes =
    if bytes == 0
    then some 0
    else if ltb (2 ^ 32 - 1 - (page_size - 1)) bytes
    then none
    else some ((bytes + page_size - 1) / page_size)

-- What the code keeps of a process: `committed_pages` of its address space, if it has one.
abbrev pub Account : Type 0
Account = Option ℕ

-- `free_pages` is what `pmm_free_page_count` gives; a status of `true` is 0.
unfoldable pub reserve : ℕ → Account → ℕ → Bool × Account
reserve free_pages none bytes = (false, none)
reserve free_pages (some committed) bytes = elim (pages_for_bytes bytes) [
  | none ↦ (false, some committed)
  | some pages ↦
      if pages == 0
      then (true, some committed)
      else if ltb (2 ^ 32 - 1 - pages) committed || ltb free_pages ((committed + pages) % 2 ^ 32)
      then (false, some committed)
      else (true, some ((committed + pages) % 2 ^ 32))
]

unfoldable pub release : Account → ℕ → Account
release none bytes = none
release (some committed) bytes = elim (pages_for_bytes bytes) [
  | none ↦ some committed
  | some pages ↦ if ltb committed pages then some 0 else some (committed - pages)
]
