-- ===== src/Kstring/Strings.antt =====
-- The copies of strings of kernel/lib/kstring.c are moves of blocks, and they end.
use drunix_os.Base.{
  fun_ext, ℕ, zero, suc, ◌+◌, ◌%◌, ◌^◌, ◌≤◌, ◌<◌, ◌≡◌, refl, ap, ◌∙◌, ◌≢◌, ◌⊎◌, inl, inr, true,
  false, Option, some, arith, ◌==◌,
}
use drunix_os.Kstring.Memory.{Memory, poke}
use drunix_os.Kstring.Text.{strlen_from, k_strlen, k_strcpy, string_end, k_strcat}
use drunix_os.Kstring.Move.{moved, moved_up}
use drunix_os.Kstring.Copies.{poke-moved}

-- `n` bytes that are not zero, and a zero byte.
pub record IsString (m : Memory) (s n : ℕ) : Type 0 where
  pub body : (j : ℕ) → j < n → m (s + j) ≢ 0
  pub last : m (s + n) ≡ 0

past_first : (m : Memory) (s n : ℕ) → IsString m s (suc n) → IsString m (s + 1) n
past_first m s n t = record {
  body = λ j h. let e : s + 1 + j ≡ s + suc j = omega arith in rw e (t.body (suc j) (omega arith));
  last = let e : s + 1 + n ≡ s + suc n = omega arith in rw e t.last;
}

first_byte : (m : Memory) (s n : ℕ) → IsString m s (suc n) → (m s == 0) ≡ false
first_byte m s n t =
    let e : s + 0 ≡ s = omega arith in
    let not_zero = rw e at (t.body 0 (omega arith)) in ground arith

only_byte : (m : Memory) (s : ℕ) → IsString m s 0 → (m s == 0) ≡ true
only_byte m s t = let e : s + 0 ≡ s = omega arith in let is_zero = rw e at t.last in ground arith

strlen_from_string :
    (n rounds : ℕ) (m : Memory) (s k : ℕ)
    → IsString m s n
    → n < rounds
    → k + n < 2 ^ 32
    → strlen_from rounds m s k ≡ some (k + n)
unfolding strlen_from
strlen_from_string n zero m s k t more small = absurd (omega arith)
strlen_from_string zero (suc rounds) m s k t more small =
    let e : k + 0 ≡ k = omega arith in simp (only_byte m s t) (rw e refl)
strlen_from_string (suc n) (suc rounds) m s k t more small =
    let e : (k + 1) % 2 ^ 32 ≡ k + 1 = omega arith in
    let e' : k + 1 + n ≡ k + suc n = omega arith in
    simp (first_byte m s n t) (
      rw e (
        strlen_from_string n rounds m (s + 1) (k + 1) (past_first m s n t) (omega arith)
          (omega arith)
        ∙ ap some e'))

-- k_strlen of a string is the number of its bytes before the zero byte, where 32 bits hold it; one round more
-- than that is enough.
pub k_strlen_string :
    (n rounds : ℕ) (m : Memory) (s : ℕ)
    → IsString m s n
    → n < rounds
    → n < 2 ^ 32
    → k_strlen rounds m s ≡ some n
unfolding k_strlen
k_strlen_string n rounds m s t more small =
    let e : 0 + n ≡ n = omega arith in
    strlen_from_string n rounds m s 0 t more (omega arith) ∙ ap some e

-- The copy ends, with the block moved.
pub record CopyOf (m : Memory) (d s n : ℕ) (out : Option Memory) : Type 0 where
  pub result : Memory
  pub ends : out ≡ some result
  pub same : (k : ℕ) → result k ≡ moved m d s n k

poke_else : (m : Memory) (a v k : ℕ) → k ≢ a → poke m a v k ≡ m k
unfolding poke
poke_else m a v k n = let e : (k == a) ≡ false = ground arith in simp e refl

poked-IsString :
    (m : Memory) (d v s n : ℕ) → (d < s) ⊎ (s + n < d) → IsString m s n → IsString (poke m d v) s n
poked-IsString m d v s n apart t = record {
  body = λ j h.
      let away : s + j ≢ d = λ e. elim apart [ inl p ↦ omega arith | inr p ↦ omega arith ] in
      rw (poke_else m d v (s + j) away) (t.body j h);
  last =
      let away : s + n ≢ d = λ e. elim apart [ inl p ↦ omega arith | inr p ↦ omega arith ] in
      rw (poke_else m d v (s + n) away) t.last;
}

-- k_strcpy of a string ends and moves it with its zero byte, where it does not lie before its target and
-- overlap it; one round more than its bytes is enough.
pub k_strcpy-CopyOf :
    (n rounds : ℕ) (m : Memory) (d s : ℕ)
    → IsString m s n
    → n < rounds
    → (d ≤ s) ⊎ (s + (n + 1) ≤ d)
    → CopyOf m d s (n + 1) (k_strcpy rounds m d s)
unfolding k_strcpy
k_strcpy-CopyOf n zero m d s t more apart = absurd (omega arith)
k_strcpy-CopyOf zero (suc rounds) m d s t more apart = simp (only_byte m s t) (record {
  result = poke m d (m s);
  ends = refl;
  same = λ k. let e : 0 + 1 ≡ 1 = omega arith in rw e (poke-moved m d s k);
})
k_strcpy-CopyOf (suc n) (suc rounds) m d s t more apart =
    let next = poke m d (m s) in
    let u =
      poked-IsString m d (m s) (s + 1) n
        (elim apart [ inl p ↦ inl (omega arith) | inr p ↦ inr (omega arith) ])
        (past_first m s n t) in
    let r =
      k_strcpy-CopyOf n rounds next (d + 1) (s + 1) u (omega arith)
        (elim apart [ inl p ↦ inl (omega arith) | inr p ↦ inr (omega arith) ]) in
    let total : 1 + (n + 1) ≡ suc n + 1 = omega arith in
    simp (first_byte m s n t) (record {
      result = r.result;
      ends = r.ends;
      same = λ k.
          r.same k
          ∙ ap (λ (x : Memory). moved x (d + 1) (s + 1) (n + 1) k) (fun_ext (poke-moved m d s))
          ∙ moved_up m d s 1 (n + 1) k (elim apart [ inl p ↦ inl p | inr p ↦ inr (omega arith) ])
          ∙ ap (λ j. moved m d s j k) total;
    })

string_end_of :
    (n rounds : ℕ) (m : Memory) (d : ℕ)
    → IsString m d n
    → n < rounds
    → string_end rounds m d ≡ some (d + n)
unfolding string_end
string_end_of n zero m d t more = absurd (omega arith)
string_end_of zero (suc rounds) m d t more =
    let e : d + 0 ≡ d = omega arith in simp (only_byte m d t) (rw e refl)
string_end_of (suc n) (suc rounds) m d t more =
    let e : d + 1 + n ≡ d + suc n = omega arith in
    simp (first_byte m d n t)
      (string_end_of n rounds m (d + 1) (past_first m d n t) (omega arith) ∙ ap some e)

-- k_strcat of two strings ends and moves the second with its zero byte to the end of the first, where that
-- overwrites nothing that is still to be read; one round more than the bytes of each is enough.
pub k_strcat-CopyOf :
    (l n rounds : ℕ) (m : Memory) (d s : ℕ)
    → IsString m d l
    → IsString m s n
    → l < rounds
    → n < rounds
    → (d + l ≤ s) ⊎ (s + (n + 1) ≤ d + l)
    → CopyOf m (d + l) s (n + 1) (k_strcat rounds m d s)
unfolding k_strcat
k_strcat-CopyOf l n rounds m d s t u more more' apart =
    rw (string_end_of l rounds m d t more) (k_strcpy-CopyOf n rounds m (d + l) s u more' apart)
