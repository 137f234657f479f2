-- ===== src/Kstring/Move.antt =====
-- The copies of kernel/lib/kstring.c, by words or by bytes, upwards or downwards, are moves of a block.
use drunix_os.Base.{
  ℕ, ◌+◌, ◌-◌, ◌≤◌, ◌<◌, ◌≡◌, refl, sym, ap, ◌∙◌, ◌⊎◌, inl, inr, true, false, ◌&&◌, arith, dec_lt,
  ltb, leb, if◌then◌else◌, Bool-cases,
}
use drunix_os.Kstring.Memory.{Memory}

-- The reference: all bytes of the block at once.
unfoldable pub moved : Memory → ℕ → ℕ → ℕ → Memory
moved m d s n k = if leb d k && ltb k (d + n) then m (s + (k - d)) else m k

pub moved_in : (m : Memory) (d s n k : ℕ) → d ≤ k → k < d + n → moved m d s n k ≡ m (s + (k - d))
unfolding moved
moved_in m d s n k p q =
    let a : leb d k ≡ true = ground arith in
    let b : ltb k (d + n) ≡ true = ground arith in simp (a, b) refl

pub moved_out : (m : Memory) (d s n k : ℕ) → (k < d) ⊎ (d + n ≤ k) → moved m d s n k ≡ m k
unfolding moved
moved_out m d s n k out = elim out [
  | inl low ↦ let a : leb d k ≡ false = ground arith in simp a refl
  | inr high ↦ elim (Bool-cases (leb d k)) [
    | inr low ↦ simp low refl
    | inl from ↦ let b : ltb k (d + n) ≡ false = ground arith in simp (from, b) refl
  ]
]

-- A block is moved by moving its first part and then the rest, where that reads nothing overwritten.
pub moved_up :
    (m : Memory) (d s a n k : ℕ)
    → (d ≤ s) ⊎ (s + (a + n) ≤ d)
    → moved (moved m d s a) (d + a) (s + a) n k ≡ moved m d s (a + n) k
moved_up m d s a n k apart = elim (dec_lt k (d + a)) [
  | yes first ↦ moved_out (moved m d s a) (d + a) (s + a) n k (inl first) ∙ elim (dec_lt k d) [
    | yes low ↦ moved_out m d s a k (inl low) ∙ sym (moved_out m d s (a + n) k (inl low))
    | no from ↦
        moved_in m d s a k (omega arith) first
        ∙ sym (moved_in m d s (a + n) k (omega arith) (omega arith))
  ]
  | no later ↦ elim (dec_lt k (d + (a + n))) [
    | yes inside ↦
        let same : s + a + (k - (d + a)) ≡ s + (k - d) = omega arith in
        moved_in (moved m d s a) (d + a) (s + a) n k (omega arith) (omega arith)
        ∙ ap (moved m d s a) same
        ∙ moved_out m d s a (s + (k - d))
            (elim apart [ inl p ↦ inr (omega arith) | inr p ↦ inl (omega arith) ])
        ∙ sym (moved_in m d s (a + n) k (omega arith) inside)
    | no past ↦
        moved_out (moved m d s a) (d + a) (s + a) n k (inr (omega arith))
        ∙ moved_out m d s a k (inr (omega arith))
        ∙ sym (moved_out m d s (a + n) k (inr (omega arith)))
  ]
]

-- The same, from the last part down.
pub moved_down :
    (m : Memory) (d s a n k : ℕ)
    → s ≤ d
    → moved (moved m (d + n) (s + n) a) d s n k ≡ moved m d s (n + a) k
moved_down m d s a n k apart = elim (dec_lt k d) [
  | yes low ↦
      moved_out (moved m (d + n) (s + n) a) d s n k (inl low)
      ∙ moved_out m (d + n) (s + n) a k (inl (omega arith))
      ∙ sym (moved_out m d s (n + a) k (inl low))
  | no from ↦ elim (dec_lt k (d + n)) [
    | yes inside ↦
        moved_in (moved m (d + n) (s + n) a) d s n k (omega arith) inside
        ∙ moved_out m (d + n) (s + n) a (s + (k - d)) (inl (omega arith))
        ∙ sym (moved_in m d s (n + a) k (omega arith) (omega arith))
    | no later ↦
        moved_out (moved m (d + n) (s + n) a) d s n k (inr (omega arith))
        ∙ elim (dec_lt k (d + (n + a))) [
          | yes tail ↦
              let same : s + n + (k - (d + n)) ≡ s + (k - d) = omega arith in
              moved_in m (d + n) (s + n) a k (omega arith) (omega arith)
              ∙ ap m same
              ∙ sym (moved_in m d s (n + a) k (omega arith) tail)
          | no past ↦
              moved_out m (d + n) (s + n) a k (inr (omega arith))
              ∙ sym (moved_out m d s (n + a) k (inr (omega arith)))
        ]
  ]
]
