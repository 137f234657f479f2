-- ===== src/Bcache/Order.antt =====
-- The list of slots from the most to the least recently used, in kernel/blk/bcache.c.
use drunix_os.Base.{
  ℕ, ◌≡◌, refl, ap, ◌⊎◌, inl, inr, Bool, true, false, not, ◌&&◌, ◌||◌, some, List, [], ◌∷◌, ◌++◌,
  arith, ℕ_discrete, ◌==◌,
}
use drunix_os.Bcache.Cache.{detach, touch, tail, prev}

unfoldable pub occurs : ℕ → List ℕ → Bool
occurs i [] = false
occurs i (j ∷ order) = j == i || occurs i order

unfoldable pub distinct : List ℕ → Bool
distinct [] = true
distinct (i ∷ order) = not (occurs i order) && distinct order

abbrev pub snoc : List ℕ → ℕ → List ℕ
snoc l i = l ++ (i ∷ [])

pub snoc-cases : (order : List ℕ) → (order ≡ []) ⊎ ((l : List ℕ) × (i : ℕ) × (order ≡ snoc l i))
snoc-cases [] = inl refl
snoc-cases (j ∷ order) = elim (snoc-cases order) [
  | inl e ↦ inr ([], j, ap (λ l. j ∷ l) e)
  | inr (l, i, e) ↦ inr (j ∷ l, i, ap (λ l. j ∷ l) e)
]

pub tail-snoc : (l : List ℕ) (i : ℕ) → tail (snoc l i) ≡ some i
unfolding tail
tail-snoc [] i = refl
tail-snoc (j ∷ []) i = refl
tail-snoc (j ∷ k ∷ l) i = tail-snoc (k ∷ l) i

pub tail-cons : (j k : ℕ) (l : List ℕ) → tail (j ∷ k ∷ l) ≡ tail (k ∷ l)
unfolding tail
tail-cons j k l = refl

pub occurs-snoc : (j : ℕ) (l : List ℕ) (i : ℕ) → occurs j (snoc l i) ≡ (occurs j l || i == j)
unfolding occurs
occurs-snoc j [] i = ground arith
occurs-snoc j (k ∷ l) i = let rest = occurs-snoc j l i in ground arith

pub occurs-cons : (j i : ℕ) (l : List ℕ) → occurs j (i ∷ l) ≡ (i == j || occurs j l)
unfolding occurs
occurs-cons j i l = refl

pub distinct-cons : (i : ℕ) (l : List ℕ) → distinct (i ∷ l) ≡ (not (occurs i l) && distinct l)
unfolding distinct
distinct-cons i l = refl

pub distinct-snoc : (l : List ℕ) (i : ℕ) → distinct (snoc l i) ≡ distinct (i ∷ l)
unfolding distinct occurs
distinct-snoc [] i = ground arith
distinct-snoc (k ∷ l) i =
    let rest = distinct-snoc l i in
    let there = occurs-snoc k l i in
    elim (ℕ_discrete i k) [ yes p ↦ ground arith | no p ↦ ground arith ]

pub detach-snoc : (l : List ℕ) (i : ℕ) → occurs i l ≡ false → detach (snoc l i) i ≡ l
unfolding detach occurs
detach-snoc [] i out = ground arith
detach-snoc (k ∷ l) i out =
    let miss : (k == i) ≡ false = ground arith in
    let rest = detach-snoc l i (ground arith) in rw (detach, miss) (ap (λ t. k ∷ t) rest)

-- The link of the last slot is the last of the others.
pub prev-snoc : (l : List ℕ) (i : ℕ) → occurs i l ≡ false → prev (snoc l i) i ≡ tail l
unfolding prev occurs tail
prev-snoc [] i out = refl
prev-snoc (j ∷ []) i out = ground arith
prev-snoc (j ∷ k ∷ l) i out =
    let miss : (k == i) ≡ false = ground arith in
    let rest = prev-snoc (k ∷ l) i (ground arith) in rw miss rest

-- The last slot moved to the front.
pub touch-snoc : (l : List ℕ) (i : ℕ) → occurs i l ≡ false → touch (snoc l i) i ≡ i ∷ l
unfolding touch
touch-snoc l i out = ap (λ t. i ∷ t) (detach-snoc l i out)

pub occurs-split :
    (i : ℕ) (order : List ℕ)
    → occurs i order ≡ true
    → (front : List ℕ) × (back : List ℕ) × (order ≡ front ++ (i ∷ back))
unfolding occurs
occurs-split i [] there = absurd (cc)
occurs-split i (j ∷ order) there = elim (ℕ_discrete j i) [
  | yes p ↦ ([], order, ap (λ k. k ∷ order) p)
  | no p ↦
      let (front, back, e) = occurs-split i order (ground arith) in
      (j ∷ front, back, ap (λ t. j ∷ t) e)
]
