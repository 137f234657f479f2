-- ===== src/Kstring/Fill.antt =====
-- `k_memset` of kernel/lib/kstring.c fills a block.
use drunix_os.Base.{
  fun_ext, ℕ, zero, suc, ◌+◌, ◌-◌, ◌*◌, ◌/◌, ◌%◌, ◌^◌, ◌≤◌, ◌<◌, ◌≡◌, refl, sym, ap, ◌∙◌, ◌⊎◌, inl,
  inr, Bool, true, false, ◌&&◌, arith, dec_lt, ℕ_discrete, ltb, leb, ◌==◌, if◌then◌else◌,
  Bool-cases, all_below, all_below_sound, bit_and,
}
use drunix_os.Kstring.Memory.{
  Memory, poke, poke_word, k_memset32, fill_up, fill_head, fill_pattern, k_memset,
}

-- The reference: the block of `n` bytes from `p` on holds `byte`.
unfoldable pub filled : Memory → ℕ → ℕ → ℕ → Memory
filled m p n byte k = if leb p k && ltb k (p + n) then byte else m k

filled_in : (m : Memory) (p n byte k : ℕ) → p ≤ k → k < p + n → filled m p n byte k ≡ byte
unfolding filled
filled_in m p n byte k a b =
    let a' : leb p k ≡ true = ground arith in
    let b' : ltb k (p + n) ≡ true = ground arith in simp (a', b') refl

filled_out : (m : Memory) (p n byte k : ℕ) → (k < p) ⊎ (p + n ≤ k) → filled m p n byte k ≡ m k
unfolding filled
filled_out m p n byte k out = elim out [
  | inl low ↦ let a : leb p k ≡ false = ground arith in simp a refl
  | inr high ↦ elim (Bool-cases (leb p k)) [
    | inr low ↦ simp low refl
    | inl from ↦ let b : ltb k (p + n) ≡ false = ground arith in simp (from, b) refl
  ]
]

-- A block is filled part by part.
filled-filled :
    (m : Memory) (p a n byte k : ℕ)
    → filled (filled m p a byte) (p + a) n byte k ≡ filled m p (a + n) byte k
filled-filled m p a n byte k = elim (dec_lt k (p + a)) [
  | yes first ↦ filled_out (filled m p a byte) (p + a) n byte k (inl first) ∙ elim (dec_lt k p) [
    | yes low ↦ filled_out m p a byte k (inl low) ∙ sym (filled_out m p (a + n) byte k (inl low))
    | no from ↦
        filled_in m p a byte k (omega arith) first
        ∙ sym (filled_in m p (a + n) byte k (omega arith) (omega arith))
  ]
  | no later ↦ elim (dec_lt k (p + (a + n))) [
    | yes inside ↦
        filled_in (filled m p a byte) (p + a) n byte k (omega arith) (omega arith)
        ∙ sym (filled_in m p (a + n) byte k (omega arith) inside)
    | no past ↦
        filled_out (filled m p a byte) (p + a) n byte k (inr (omega arith))
        ∙ filled_out m p a byte k (inr (omega arith))
        ∙ sym (filled_out m p (a + n) byte k (inr (omega arith)))
  ]
]

filled_none : (m : Memory) (p byte k : ℕ) → m k ≡ filled m p 0 byte k
filled_none m p byte k =
    sym (filled_out m p 0 byte k (elim (dec_lt k p) [ yes q ↦ inl q | no q ↦ inr (omega arith) ]))

poke-filled : (m : Memory) (p byte k : ℕ) → poke m p byte k ≡ filled m p 1 byte k
unfolding poke
poke-filled m p byte k = elim (ℕ_discrete k p) [
  | yes e ↦
      let here : (k == p) ≡ true = ground arith in
      simp here (sym (filled_in m p 1 byte k (omega arith) (omega arith)))
  | no e ↦
      let away : (k == p) ≡ false = ground arith in
      simp away (
        sym (
          filled_out m p 1 byte k (elim (dec_lt k p) [ yes q ↦ inl q | no q ↦ inr (omega arith) ])))
]

fill_up-filled : (n : ℕ) (m : Memory) (p byte k : ℕ) → fill_up n m p byte k ≡ filled m p n byte k
unfolding fill_up
fill_up-filled zero m p byte k = filled_none m p byte k
fill_up-filled (suc n) m p byte k =
    let total : 1 + n ≡ suc n = omega arith in
    fill_up-filled n (poke m p byte) (p + 1) byte k
    ∙ ap (λ (x : Memory). filled x (p + 1) n byte k) (fun_ext (poke-filled m p byte))
    ∙ filled-filled m p 1 n byte k
    ∙ ap (λ t. filled m p t byte k) total

-- Each byte of the pattern is the byte that is filled in.
pattern_bytes : ℕ → Bool
pattern_bytes byte =
    fill_pattern byte % 256 == byte
    && fill_pattern byte / 2 ^ 8 % 256 == byte
    && fill_pattern byte / 2 ^ 16 % 256 == byte
    && fill_pattern byte / 2 ^ 24 % 256 == byte

pattern_bytes_all : all_below 256 pattern_bytes ≡ true
unfolding all_below pattern_bytes fill_pattern
pattern_bytes_all = refl

fill_pattern-byte : (byte j : ℕ) → byte < 256 → j < 4 → fill_pattern byte / 2 ^ (8 * j) % 256 ≡ byte
unfolding pattern_bytes
fill_pattern-byte byte j small inside =
    let all = all_below_sound 256 pattern_bytes byte pattern_bytes_all small in
    cases j inside (ground arith) (ground arith) (ground arith) (ground arith)
  where
    cases :
        (i : ℕ)
        → i < 4
        → fill_pattern byte % 256 ≡ byte
        → fill_pattern byte / 2 ^ 8 % 256 ≡ byte
        → fill_pattern byte / 2 ^ 16 % 256 ≡ byte
        → fill_pattern byte / 2 ^ 24 % 256 ≡ byte
        → fill_pattern byte / 2 ^ (8 * i) % 256 ≡ byte
    cases zero h a b c d = ground arith
    cases (suc zero) h a b c d = b
    cases (suc (suc zero)) h a b c d = c
    cases (suc (suc (suc zero))) h a b c d = d
    cases (suc (suc (suc (suc i)))) h a b c d = absurd (omega arith)

word-filled :
    (m : Memory) (p byte k : ℕ)
    → byte < 256
    → poke_word m p (fill_pattern byte) k ≡ filled m p 4 byte k
unfolding poke_word
word-filled m p byte k small = elim (Bool-cases (leb p k && ltb k (p + 4))) [
  | inl inside ↦
      simp inside (fill_pattern-byte byte (k - p) small (ground arith))
      ∙ sym (filled_in m p 4 byte k (ground arith) (ground arith))
  | inr outside ↦
      simp outside refl
      ∙ sym (
          filled_out m p 4 byte k (elim (dec_lt k p) [ yes q ↦ inl q | no q ↦ inr (ground arith) ]))
]

k_memset32-filled :
    (words : ℕ) (m : Memory) (p byte k : ℕ)
    → byte < 256
    → k_memset32 m p (fill_pattern byte) words k ≡ filled m p (words * 4) byte k
unfolding k_memset32
k_memset32-filled zero m p byte k small =
    let nothing : 0 * 4 ≡ 0 = omega arith in rw nothing (filled_none m p byte k)
k_memset32-filled (suc words) m p byte k small =
    let total : 4 + words * 4 ≡ suc words * 4 = omega arith in
    k_memset32-filled words (poke_word m p (fill_pattern byte)) (p + 4) byte k small
    ∙ ap (λ (x : Memory). filled x (p + 4) (words * 4) byte k)
        (fun_ext (λ j. word-filled m p byte j small))
    ∙ filled-filled m p 4 (words * 4) byte k
    ∙ ap (λ t. filled m p t byte k) total

-- What the first loop leaves.
record Headed (m : Memory) (p n byte : ℕ) (out : Memory × ℕ × ℕ) : Type 0 where
  done : ℕ
  at : out.1 ≡ p + done
  left : done + out.2 ≡ n
  made : (k : ℕ) → out.0 k ≡ filled m p done byte k

fill_head-Headed : (n : ℕ) (m : Memory) (p byte : ℕ) → Headed m p n byte (fill_head n m p byte)
unfolding fill_head
fill_head-Headed zero m p byte = record {
  done = 0;
  at = omega arith;
  left = omega arith;
  made = λ k. filled_none m p byte k;
}
fill_head-Headed (suc n) m p byte = elim (Bool-cases (bit_and p 3 == 0)) [
  | inl aligned ↦ simp aligned (record {
    done = 0;
    at = omega arith;
    left = omega arith;
    made = λ k. filled_none m p byte k;
  })
  | inr off ↦
      let r = fill_head-Headed n (poke m p byte) (p + 1) byte in
      simp off (record {
        done = 1 + r.done;
        at = r.at ∙ omega arith;
        left = omega (arith, r.left);
        made = λ k.
            r.made k
            ∙ ap (λ (x : Memory). filled x (p + 1) r.done byte k) (fun_ext (poke-filled m p byte))
            ∙ filled-filled m p 1 r.done byte k;
      })
]

-- The words and the bytes after the first loop.
tail-filled :
    (m : Memory) (p left byte k : ℕ)
    → byte < 256
    → fill_up
        (left - (if leb 4 left then left / 4 * 4 else 0))
        (if leb 4 left then k_memset32 m p (fill_pattern byte) (left / 4) else m)
        (p + (if leb 4 left then left / 4 * 4 else 0))
        byte
        k
      ≡ filled m p left byte k
tail-filled m p left byte k small = elim (Bool-cases (leb 4 left)) [
  | inl words ↦
      let total : left / 4 * 4 + (left - left / 4 * 4) ≡ left = omega arith in
      simp words (
        fill_up-filled (left - left / 4 * 4) (k_memset32 m p (fill_pattern byte) (left / 4))
          (p + left / 4 * 4) byte k
        ∙ ap (λ (x : Memory). filled x (p + left / 4 * 4) (left - left / 4 * 4) byte k)
            (fun_ext (λ j. k_memset32-filled (left / 4) m p byte j small))
        ∙ filled-filled m p (left / 4 * 4) (left - left / 4 * 4) byte k
        ∙ ap (λ t. filled m p t byte k) total)
  | inr few ↦
      let all : left - 0 ≡ left = omega arith in
      let here : p + 0 ≡ p = omega arith in
      simp few (rw (all, here) (fill_up-filled left m p byte k))
]

-- k_memset fills the block with the low byte of its argument, and leaves all else.
pub k_memset-filled : (m : Memory) (s c n k : ℕ) → k_memset m s c n k ≡ filled m s n (c % 256) k
unfolding k_memset
k_memset-filled m s c n k =
    let byte = c % 256 in
    let h = fill_head-Headed n m s byte in
    let m1 = (fill_head n m s byte).0 in
    let p = (fill_head n m s byte).1 in
    let left = (fill_head n m s byte).2 in
    tail-filled m1 p left byte k (omega arith)
    ∙ ap (λ (x : Memory). filled x p left byte k) (fun_ext h.made)
    ∙ ap (λ t. filled (filled m s h.done byte) t left byte k) h.at
    ∙ filled-filled m s h.done left byte k
    ∙ ap (λ t. filled m s t byte k) h.left
