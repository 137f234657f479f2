-- ===== src/Kstring/Copies.antt =====
-- `k_memcpy` and `k_memmove` of kernel/lib/kstring.c are equal to the move of a block.
use drunix_os.Base.{
  fun_ext, ℕ, zero, suc, ◌+◌, ◌-◌, ◌*◌, ◌/◌, ◌%◌, ◌≤◌, ◌≡◌, refl, sym, ap, ◌∙◌, ◌⊎◌, inl, inr, true,
  false, ◌||◌, arith, dec_lt, ℕ_discrete, ltb, leb, ◌==◌, Bool-cases,
}
use drunix_os.Kstring.Memory.{
  Memory, poke, copy_word, both_aligned, copy_up, words_up, copy_down, words_down, k_memcpy,
  k_memmove,
}
use drunix_os.Kstring.Move.{moved, moved_in, moved_out, moved_up, moved_down}

pub poke-moved : (m : Memory) (d s k : ℕ) → poke m d (m s) k ≡ moved m d s 1 k
unfolding poke
poke-moved m d s k = elim (ℕ_discrete k d) [
  | yes p ↦
      let e : (k == d) ≡ true = ground arith in
      let same : s + (k - d) ≡ s = omega arith in
      simp e (ap m (sym same)) ∙ sym (moved_in m d s 1 k (omega arith) (omega arith))
  | no p ↦
      let e : (k == d) ≡ false = ground arith in
      simp e
        (sym (moved_out m d s 1 k (elim (dec_lt k d) [ yes q ↦ inl q | no q ↦ inr (omega arith) ])))
]

word-moved : (m : Memory) (d s k : ℕ) → copy_word m d s k ≡ moved m d s 4 k
unfolding copy_word moved
word-moved m d s k = refl

copy_up-moved :
    (n : ℕ) (m : Memory) (d s k : ℕ) → (d ≤ s) ⊎ (s + n ≤ d) → copy_up n m d s k ≡ moved m d s n k
unfolding copy_up
copy_up-moved zero m d s k apart =
    sym (moved_out m d s 0 k (elim (dec_lt k d) [ yes q ↦ inl q | no q ↦ inr (omega arith) ]))
copy_up-moved (suc n) m d s k apart =
    let total : 1 + n ≡ suc n = omega arith in
    copy_up-moved n (poke m d (m s)) (d + 1) (s + 1) k
      (elim apart [ inl p ↦ inl (omega arith) | inr p ↦ inr (omega arith) ])
    ∙ ap (λ (x : Memory). moved x (d + 1) (s + 1) n k) (fun_ext (poke-moved m d s))
    ∙ moved_up m d s 1 n k (elim apart [ inl p ↦ inl p | inr p ↦ inr (omega arith) ])
    ∙ ap (λ t. moved m d s t k) total

words_up-moved :
    (words : ℕ) (m : Memory) (d s k : ℕ)
    → (d ≤ s) ⊎ (s + 4 * words ≤ d)
    → words_up words m d s k ≡ moved m d s (4 * words) k
unfolding words_up
words_up-moved zero m d s k apart =
    let none_there : 4 * 0 ≡ 0 = omega arith in
    rw none_there
      (sym (moved_out m d s 0 k (elim (dec_lt k d) [ yes q ↦ inl q | no q ↦ inr (omega arith) ])))
words_up-moved (suc words) m d s k apart =
    let total : 4 + 4 * words ≡ 4 * suc words = omega arith in
    words_up-moved words (copy_word m d s) (d + 4) (s + 4) k
      (elim apart [ inl p ↦ inl (omega arith) | inr p ↦ inr (omega arith) ])
    ∙ ap (λ (x : Memory). moved x (d + 4) (s + 4) (4 * words) k) (fun_ext (word-moved m d s))
    ∙ moved_up m d s 4 (4 * words) k (elim apart [ inl p ↦ inl p | inr p ↦ inr (omega arith) ])
    ∙ ap (λ t. moved m d s t k) total

-- The two loops of an aligned copy upwards.
both_up-moved :
    (m : Memory) (d s n k : ℕ)
    → (d ≤ s) ⊎ (s + n ≤ d)
    → copy_up (n % 4) (words_up (n / 4) m d s) (d + 4 * (n / 4)) (s + 4 * (n / 4)) k
      ≡ moved m d s n k
both_up-moved m d s n k apart =
    let total : 4 * (n / 4) + n % 4 ≡ n = omega arith in
    copy_up-moved (n % 4) (words_up (n / 4) m d s) (d + 4 * (n / 4)) (s + 4 * (n / 4)) k
      (elim apart [ inl p ↦ inl (omega arith) | inr p ↦ inr (omega arith) ])
    ∙ ap (λ (x : Memory). moved x (d + 4 * (n / 4)) (s + 4 * (n / 4)) (n % 4) k)
        (fun_ext (λ j.
          words_up-moved (n / 4) m d s j
            (elim apart [ inl p ↦ inl p | inr p ↦ inr (omega arith) ])))
    ∙ moved_up m d s (4 * (n / 4)) (n % 4) k
        (elim apart [ inl p ↦ inl p | inr p ↦ inr (omega arith) ])
    ∙ ap (λ t. moved m d s t k) total

copy_down-moved :
    (n : ℕ) (m : Memory) (d s k : ℕ) → s ≤ d → copy_down n m (d + n) (s + n) k ≡ moved m d s n k
unfolding copy_down
copy_down-moved zero m d s k h =
    sym (moved_out m d s 0 k (elim (dec_lt k d) [ yes q ↦ inl q | no q ↦ inr (omega arith) ]))
copy_down-moved (suc n) m d s k h =
    let d_back : d + suc n - 1 ≡ d + n = omega arith in
    let s_back : s + suc n - 1 ≡ s + n = omega arith in
    let total : n + 1 ≡ suc n = omega arith in
    rw (d_back, s_back)
      (copy_down-moved n (poke m (d + n) (m (s + n))) d s k h
        ∙ ap (λ (x : Memory). moved x d s n k) (fun_ext (poke-moved m (d + n) (s + n)))
        ∙ moved_down m d s 1 n k h
        ∙ ap (λ t. moved m d s t k) total)

words_down-moved :
    (words : ℕ) (m : Memory) (d s k : ℕ)
    → s ≤ d
    → words_down words m (d + 4 * words) (s + 4 * words) k ≡ moved m d s (4 * words) k
unfolding words_down
words_down-moved zero m d s k h =
    let none_there : 4 * 0 ≡ 0 = omega arith in
    rw none_there
      (sym (moved_out m d s 0 k (elim (dec_lt k d) [ yes q ↦ inl q | no q ↦ inr (omega arith) ])))
words_down-moved (suc words) m d s k h =
    let d_back : d + 4 * suc words - 4 ≡ d + 4 * words = omega arith in
    let s_back : s + 4 * suc words - 4 ≡ s + 4 * words = omega arith in
    let total : 4 * words + 4 ≡ 4 * suc words = omega arith in
    rw (d_back, s_back)
      (words_down-moved words (copy_word m (d + 4 * words) (s + 4 * words)) d s k h
        ∙ ap (λ (x : Memory). moved x d s (4 * words) k)
            (fun_ext (word-moved m (d + 4 * words) (s + 4 * words)))
        ∙ moved_down m d s 4 (4 * words) k h
        ∙ ap (λ t. moved m d s t k) total)

-- The two loops of an aligned copy downwards.
both_down-moved :
    (m : Memory) (d s n k : ℕ)
    → s ≤ d
    → copy_down
        (n % 4)
        (words_down (n / 4) m (d + n) (s + n))
        (d + n - 4 * (n / 4))
        (s + n - 4 * (n / 4))
        k
      ≡ moved m d s n k
both_down-moved m d s n k h =
    let w = 4 * (n / 4) in
    let d_mid : d + n - w ≡ d + n % 4 = omega arith in
    let s_mid : s + n - w ≡ s + n % 4 = omega arith in
    let d_end : d + n ≡ d + n % 4 + w = omega arith in
    let s_end : s + n ≡ s + n % 4 + w = omega arith in
    let total : n % 4 + w ≡ n = omega arith in
    let upper : words_down (n / 4) m (d + n) (s + n) ≡ moved m (d + n % 4) (s + n % 4) w =
      ap (λ t. words_down (n / 4) m t (s + n)) d_end
      ∙ ap (λ t. words_down (n / 4) m (d + n % 4 + w) t) s_end
      ∙ fun_ext (λ j. words_down-moved (n / 4) m (d + n % 4) (s + n % 4) j (omega arith)) in
    ap (λ t. copy_down (n % 4) (words_down (n / 4) m (d + n) (s + n)) t (s + n - w) k) d_mid
    ∙ ap (λ t. copy_down (n % 4) (words_down (n / 4) m (d + n) (s + n)) (d + n % 4) t k) s_mid
    ∙ copy_down-moved (n % 4) (words_down (n / 4) m (d + n) (s + n)) d s k h
    ∙ ap (λ (x : Memory). moved x d s (n % 4) k) upper
    ∙ moved_down m d s w (n % 4) k h
    ∙ ap (λ t. moved m d s t k) total

-- k_memmove is the move of the block, whether its source and its target overlap or not, and whatever
-- their alignment.
pub k_memmove-moved : (m : Memory) (d s n k : ℕ) → k_memmove m d s n k ≡ moved m d s n k
unfolding k_memmove
k_memmove-moved m d s n k = elim (Bool-cases (ltb d s || leb (s + n) d)) [
  | inl up ↦
      let apart : (d ≤ s) ⊎ (s + n ≤ d) = elim (dec_lt d s) [
        | yes p ↦ inl (omega arith)
        | no p ↦ inr (ground arith)
      ] in
      elim (Bool-cases (both_aligned d s)) [
        | inl words ↦ simp (up, words) (both_up-moved m d s n k apart)
        | inr bytes ↦ simp (up, bytes) (copy_up-moved n m d s k apart)
      ]
  | inr down ↦
      let h : s ≤ d = ground arith in
      elim (Bool-cases (both_aligned (d + n) (s + n))) [
        | inl words ↦ simp (down, words) (both_down-moved m d s n k h)
        | inr bytes ↦ simp (down, bytes) (copy_down-moved n m d s k h)
      ]
]

-- k_memcpy is the move of the block where its source does not lie before its target and overlap it.
pub k_memcpy-moved :
    (m : Memory) (d s n k : ℕ) → (d ≤ s) ⊎ (s + n ≤ d) → k_memcpy m d s n k ≡ moved m d s n k
unfolding k_memcpy
k_memcpy-moved m d s n k apart = elim (Bool-cases (both_aligned d s)) [
  | inl words ↦ simp words (both_up-moved m d s n k apart)
  | inr bytes ↦ simp bytes (copy_up-moved n m d s k apart)
]
