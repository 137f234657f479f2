-- ===== src/Sort/Shuffle.antt =====
-- Arrays with the same elements at other indices, for kernel/lib/ksort.c.
use drunix_os.Base.{
  ℕ, ◌≤◌, ◌<◌, ◌≡◌, refl, ap, ◌∙◌, ◌≢◌, inl, inr, true, false, arith, dec_lt, ◌==◌, if◌then◌else◌,
  Bool-cases,
}
use drunix_os.Sort.Heap.{Elems, swap}

-- The elements of `b` below `n` are those of `a` below `n`, each as often; the others are in place.
pub record Shuffled {A : Type 0} (n : ℕ) (a b : Elems A) : Type 0 where
  pub from : ℕ → ℕ
  pub to : ℕ → ℕ
  pub moved : (k : ℕ) → b k ≡ a (from k)
  pub inside : (k : ℕ) → k < n → from k < n
  pub outside : (k : ℕ) → n ≤ k → from k ≡ k
  pub to-from : (k : ℕ) → to (from k) ≡ k
  pub from-to : (k : ℕ) → from (to k) ≡ k

abbrev exchange : ℕ → ℕ → ℕ → ℕ
exchange i j k = if k == i then j else if k == j then i else k

exchange-exchange : (i j k : ℕ) → exchange i j (exchange i j k) ≡ k
exchange-exchange i j k = ground arith

module _ {A : Type 0} where
  pub Shuffled-refl : (n : ℕ) (a : Elems A) → Shuffled n a a
  Shuffled-refl n a = record {
    from = λ k. k;
    to = λ k. k;
    moved = λ k. refl;
    inside = λ k h. h;
    outside = λ k h. refl;
    to-from = λ k. refl;
    from-to = λ k. refl;
  }

  pub Shuffled-trans : (n : ℕ) (a b c : Elems A) → Shuffled n a b → Shuffled n b c → Shuffled n a c
  Shuffled-trans n a b c p q = record {
    from = λ k. p.from (q.from k);
    to = λ k. q.to (p.to k);
    moved = λ k. q.moved k ∙ p.moved (q.from k);
    inside = λ k h. p.inside (q.from k) (q.inside k h);
    outside = λ k h. ap p.from (q.outside k h) ∙ p.outside k h;
    to-from = λ k. ap q.to (p.to-from (q.from k)) ∙ q.to-from k;
    from-to = λ k. ap p.from (q.from-to (p.to k)) ∙ p.from-to k;
  }

  pub Shuffled-widen : (n m : ℕ) (a b : Elems A) → n ≤ m → Shuffled n a b → Shuffled m a b
  Shuffled-widen n m a b h p = record {
    from = p.from;
    to = p.to;
    moved = p.moved;
    inside = λ k below. elim (dec_lt k n) [
      | yes low ↦ let s = p.inside k low in omega arith
      | no high ↦ let s = p.outside k (omega arith) in omega arith
    ];
    outside = λ k above. p.outside k (omega arith);
    to-from = p.to-from;
    from-to = p.from-to;
  }

  pub swap-Shuffled : (n i j : ℕ) (a : Elems A) → i < n → j < n → Shuffled n a (swap a i j)
  unfolding swap
  swap-Shuffled n i j a p q = record {
    from = exchange i j;
    to = exchange i j;
    moved = λ k. elim (Bool-cases (k == i)) [
      | inl here ↦ simp here refl
      | inr other ↦ elim (Bool-cases (k == j)) [
        | inl there ↦ simp (other, there) refl
        | inr away ↦ simp (other, away) refl
      ]
    ];
    inside = λ k h. ground arith;
    outside = λ k h. ground arith;
    to-from = exchange-exchange i j;
    from-to = exchange-exchange i j;
  }

pub swap_first : {A : Type 0} (a : Elems A) (i j : ℕ) → swap a i j i ≡ a j
unfolding swap
swap_first a i j = let e : (i == i) ≡ true = ground arith in simp e refl

pub swap_second : {A : Type 0} (a : Elems A) (i j : ℕ) → i ≢ j → swap a i j j ≡ a i
unfolding swap
swap_second a i j n =
    let e : (j == i) ≡ false = ground arith in
    let e' : (j == j) ≡ true = ground arith in simp (e, e') refl

pub swap_else : {A : Type 0} (a : Elems A) (i j k : ℕ) → k ≢ i → k ≢ j → swap a i j k ≡ a k
unfolding swap
swap_else a i j k n m =
    let e : (k == i) ≡ false = ground arith in
    let e' : (k == j) ≡ false = ground arith in simp (e, e') refl
