-- ===== src/Sort/Heap.antt =====
-- The functions of kernel/lib/ksort.c.
use drunix_os.Base.{
  ℕ, zero, suc, ◌+◌, ◌-◌, ◌*◌, ◌/◌, ◌%◌, ◌^◌, Bool, ◌&&◌, Option, none, some, ltb, leb, ◌==◌,
  if◌then◌else◌, ◌>>=◌,
}

-- An array in memory, by the index of an element.
abbrev pub Elems : Type 0 → Type 0
Elems A = ℕ → A

-- `swap`, of two whole elements.
unfoldable pub swap : {A : Type 0} → Elems A → ℕ → ℕ → Elems A
swap a i j k = if k == i then a j else if k == j then a i else a k

-- The index of the left child.
abbrev pub left_child : ℕ → ℕ
left_child root = (2 * root + 1) % 2 ^ 32

-- `less` says whether the comparison `cmp` of the caller is negative.
module _ {A : Type 0} (less : A → A → Bool) where
  -- The larger child, if there are two.
  unfoldable pub larger : Elems A → ℕ → ℕ → ℕ
  larger a child end =
      if leb (child + 1) end && less (a child) (a (child + 1)) then child + 1 else child

  -- The loop of `sift_down`, by rounds; `none` where they are used up.
  unfoldable pub sift_down : ℕ → Elems A → ℕ → ℕ → Option (Elems A)
  sift_down zero a root end = none
  sift_down (suc rounds) a root end =
      let child = larger a (left_child root) end in
      let rest = sift_down rounds (swap a root child) child end in
      if ltb end (left_child root) then some a else if less (a root) (a child) then rest else some a

  -- The first loop of `k_sort`, over the roots below `i`.
  unfoldable pub build : ℕ → Elems A → ℕ → ℕ → Option (Elems A)
  build rounds a zero end = some a
  build rounds a (suc i) end = sift_down rounds a i end >>= λ b. build rounds b i end

  -- The second loop.
  unfoldable pub extract : ℕ → Elems A → ℕ → Option (Elems A)
  extract rounds a zero = some a
  extract rounds a (suc end) =
      sift_down rounds (swap a 0 (suc end)) 0 end >>= λ b. extract rounds b end

  unfoldable pub k_sort : ℕ → Elems A → ℕ → Option (Elems A)
  k_sort rounds a n =
      if ltb n 2
      then some a
      else build rounds a ((n - 2) / 2 + 1) (n - 1) >>= λ b. extract rounds b (n - 1)
