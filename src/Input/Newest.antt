-- ===== src/Input/Newest.antt =====
-- Lists as the model of kernel/drivers/inputdev.c uses them: the newest entries, and prefixes.
use drunix_os.Base.{
  ℕ, zero, suc, ◌≤◌, ◌≡◌, refl, sym, ap, ◌∙◌, List, [], ◌∷◌, ◌++◌, arith, dec_lt, ltb,
  if◌then◌else◌, length, length-append,
}

-- The last `n` entries of a list.
unfoldable pub newest : {A : Type 0} → ℕ → List A → List A
newest n [] = []
newest n (x ∷ xs) = if ltb n (length (x ∷ xs)) then newest n xs else x ∷ xs

unfoldable pub take : {A : Type 0} → ℕ → List A → List A
take zero xs = []
take (suc n) [] = []
take (suc n) (x ∷ xs) = x ∷ take n xs

unfoldable pub drop : {A : Type 0} → ℕ → List A → List A
drop zero xs = xs
drop (suc n) [] = []
drop (suc n) (x ∷ xs) = drop n xs

pub newest-short : {A : Type 0} → (n : ℕ) (xs : List A) → length xs ≤ n → newest n xs ≡ xs
unfolding newest
newest-short n [] h = refl
newest-short n (x ∷ xs) h = ground arith

pub newest-long :
    {A : Type 0} → (n : ℕ) (x : A) (xs : List A) → n ≤ length xs → newest n (x ∷ xs) ≡ newest n xs
unfolding newest
newest-long n x xs h = ground arith

pub newest-newest :
    {A : Type 0} → (n : ℕ) (xs ys : List A) → newest n (newest n xs ++ ys) ≡ newest n (xs ++ ys)
newest-newest n [] ys = unfold newest in refl
newest-newest n (x ∷ xs) ys = elim (dec_lt n (suc (length xs))) [
  | yes long ↦
      ap (λ l. newest n (l ++ ys)) (newest-long n x xs (omega arith))
      ∙ newest-newest n xs ys
      ∙ sym (newest-long n x (xs ++ ys) (omega (arith, length-append xs ys)))
  | no short ↦ ap (λ l. newest n (l ++ ys)) (newest-short n (x ∷ xs) (omega arith))
]

pub newest_snoc :
    {A : Type 0}
    → (n : ℕ) (xs : List A) (x : A) → newest (suc n) (xs ++ (x ∷ [])) ≡ newest n xs ++ (x ∷ [])
newest_snoc n [] x = unfold newest in ground arith
newest_snoc n (y ∷ xs) x = elim (dec_lt n (suc (length xs))) [
  | yes long ↦
      newest-long (suc n) y (xs ++ (x ∷ [])) (omega (arith, length-append xs (x ∷ [])))
      ∙ newest_snoc n xs x
      ∙ ap (λ l. l ++ (x ∷ [])) (sym (newest-long n y xs (omega arith)))
  | no short ↦
      newest-short (suc n) (y ∷ xs ++ (x ∷ [])) (omega (arith, length-append xs (x ∷ [])))
      ∙ ap (λ l. l ++ (x ∷ [])) (sym (newest-short n (y ∷ xs) (omega arith)))
]

pub take-empty : {A : Type 0} → (n : ℕ) (xs : List A) → length xs ≡ 0 → take n xs ≡ []
unfolding take
take-empty zero xs e = refl
take-empty (suc n) [] e = refl
take-empty (suc n) (x ∷ xs) e = absurd (omega (arith, e))

pub drop-empty : {A : Type 0} → (n : ℕ) (xs : List A) → length xs ≡ 0 → drop n xs ≡ xs
unfolding drop
drop-empty zero xs e = refl
drop-empty (suc n) [] e = refl
drop-empty (suc n) (x ∷ xs) e = absurd (omega (arith, e))

pub take-cons : {A : Type 0} → (n : ℕ) (x : A) (xs : List A) → take (suc n) (x ∷ xs) ≡ x ∷ take n xs
unfolding take
take-cons n x xs = refl

pub drop-cons : {A : Type 0} → (n : ℕ) (x : A) (xs : List A) → drop (suc n) (x ∷ xs) ≡ drop n xs
unfolding drop
drop-cons n x xs = refl
