-- ===== src/Kstring/Compare.antt =====
-- `k_memcmp` of kernel/lib/kstring.c.
use drunix_os.Base.{ℕ, zero, suc, ◌+◌, ◌<◌, ◌≡◌, inl, inr, arith, ltb, ◌==◌, Bool-cases}
use drunix_os.Kstring.Memory.{Memory, Order, equal, less, greater, k_memcmp}

-- What the comparison of two blocks says.
pub data Compared (m : Memory) (a b n : ℕ) : Order → Type 0 where
  alike : ((j : ℕ) → j < n → m (a + j) ≡ m (b + j)) → Compared m a b n equal
  below :
      (i : ℕ)
      → i < n
      → ((j : ℕ) → j < i → m (a + j) ≡ m (b + j))
      → m (a + i) < m (b + i)
      → Compared m a b n less
  above :
      (i : ℕ)
      → i < n
      → ((j : ℕ) → j < i → m (a + j) ≡ m (b + j))
      → m (b + i) < m (a + i)
      → Compared m a b n greater

same_first :
    (m : Memory) (a b i : ℕ)
    → m a ≡ m b
    → ((j : ℕ) → j < i → m (a + 1 + j) ≡ m (b + 1 + j))
    → (j : ℕ) → j < suc i
    → m (a + j) ≡ m (b + j)
same_first m a b i e rest zero h =
    let x : a + 0 ≡ a = omega arith in let y : b + 0 ≡ b = omega arith in rw (x, y) e
same_first m a b i e rest (suc j) h =
    let x : a + suc j ≡ a + 1 + j = omega arith in
    let y : b + suc j ≡ b + 1 + j = omega arith in rw (x, y) (rest j (omega arith))

Compared-suc :
    (m : Memory) (a b n : ℕ) (o : Order)
    → m a ≡ m b
    → Compared m (a + 1) (b + 1) n o
    → Compared m a b (suc n) o
Compared-suc m a b n o e (alike same) = alike (same_first m a b n e same)
Compared-suc m a b n o e (below i h same lower) =
    let x : a + suc i ≡ a + 1 + i = omega arith in
    let y : b + suc i ≡ b + 1 + i = omega arith in
    below (suc i) (omega arith) (same_first m a b i e same) (rw (x, y) lower)
Compared-suc m a b n o e (above i h same lower) =
    let x : a + suc i ≡ a + 1 + i = omega arith in
    let y : b + suc i ≡ b + 1 + i = omega arith in
    above (suc i) (omega arith) (same_first m a b i e same) (rw (x, y) lower)

-- k_memcmp says that two blocks are alike in all bytes, or which of them has the lower byte at the first
-- index where they differ.
pub k_memcmp-Compared : (m : Memory) (a b n : ℕ) → Compared m a b n (k_memcmp m a b n)
unfolding k_memcmp
k_memcmp-Compared m a b zero = alike (λ j h. absurd (omega arith))
k_memcmp-Compared m a b (suc n) =
    let x : a + 0 ≡ a = omega arith in
    let y : b + 0 ≡ b = omega arith in
    elim (Bool-cases (m a == m b)) [
      | inl same ↦ simp same (
          Compared-suc m a b n (k_memcmp m (a + 1) (b + 1) n) (ground arith)
            (k_memcmp-Compared m (a + 1) (b + 1) n))
      | inr other ↦ elim (Bool-cases (ltb (m a) (m b))) [
        | inl lower ↦
            simp (other, lower)
              (below 0 (omega arith) (λ j h. absurd (omega arith)) (rw (x, y) (ground arith)))
        | inr higher ↦
            simp (other, higher)
              (above 0 (omega arith) (λ j h. absurd (omega arith)) (rw (x, y) (ground arith)))
      ]
    ]
