-- ===== src/Ring.antt =====
-- Circular arrays, shared by the rings of kernel/proc/pty.c and kernel/drivers/inputdev.c: the
-- entries from an index on, going round at the capacity, as a list.
use drunix_os.Base.{
  ℕ, zero, suc, ◌+◌, ◌%◌, ◌≤◌, ◌<◌, ◌≡◌, refl, ap, ◌∙◌, ◌≢◌, List, [], ◌∷◌, ◌++◌, arith, length,
  get_or, set, get_or-set_self, get_or-set_ne,
}
use native.Mathlib.Nat.{mod-add-mod}

-- Fewer than `size` steps round a ring do not come back to the start.
add-mod-ne : (size start k : ℕ) → start < size → suc k < size → (start + suc k) % size ≢ start
add-mod-ne size start k h p = grind arith

mod_step : (size start k : ℕ) → ((start + 1) % size + k) % size ≡ (start + suc k) % size
mod_step size start k =
    let regroup : start + 1 + k ≡ start + suc k = omega arith in
    mod-add-mod (start + 1) size k ∙ ap (λ (n : ℕ). n % size) regroup

module _ {ℓ} {A : Type ℓ} where
  -- The `n` entries of `buf` from index `start` on, oldest first; `d` stands for what is read out of
  -- range.
  unfoldable pub window : A → ℕ → List A → ℕ → ℕ → List A
  window d size buf start zero = []
  window d size buf start (suc n) = get_or buf start d ∷ window d size buf ((start + 1) % size) n

  pub length-window :
      (d : A) (size : ℕ) (buf : List A) (start n : ℕ) → length (window d size buf start n) ≡ n
  unfolding window
  length-window d size buf start zero = refl
  length-window d size buf start (suc n) =
      omega (arith, length-window d size buf ((start + 1) % size) n)

  -- A write past the window does not change it.
  window-set_past :
      (d : A) (size : ℕ) (buf : List A) (start n k i : ℕ) (v : A)
      → start < size
      → n + k < size
      → i ≡ (start + n + k) % size
      → window d size (set buf i v) start n ≡ window d size buf start n
  unfolding window
  window-set_past d size buf start zero k i v h p e = refl
  window-set_past d size buf start (suc n) k i v h p e = rw (get_or-set_ne buf i start v d away) (
      ap (λ w. get_or buf start d ∷ w)
        (window-set_past d size buf ((start + 1) % size) n k i v (omega arith) (omega arith)
          shifted))
    where
      away : i ≢ start
      away =
          let regroup : start + suc n + k ≡ start + suc (n + k) = omega arith in
          let far = add-mod-ne size start (n + k) h (omega arith) in rw (e, regroup) far

      shifted : i ≡ ((start + 1) % size + n + k) % size
      shifted =
          let flat : (start + 1) % size + n + k ≡ (start + 1) % size + (n + k) = omega arith in
          let back : start + suc n + k ≡ start + suc (n + k) = omega arith in
          rw (flat, mod_step size start (n + k), e, back) refl

  -- A write just past the window adds an entry at its end.
  pub window-set_end :
      (d : A) (size : ℕ) (buf : List A) (start n i : ℕ) (v : A)
      → size ≤ length buf
      → start < size
      → n < size
      → i ≡ (start + n) % size
      → window d size (set buf i v) start (suc n) ≡ window d size buf start n ++ (v ∷ [])
  unfolding window
  window-set_end d size buf start zero i v room h p e =
      let here : i ≡ start = grind arith in
      rw (here, get_or-set_self buf start v d (omega arith)) refl
  window-set_end d size buf start (suc n) i v room h p e =
      let away : i ≢ start = rw e (add-mod-ne size start n h p) in
      rw (get_or-set_ne buf i start v d away) (
        ap (λ w. get_or buf start d ∷ w)
          (window-set_end d size buf ((start + 1) % size) n i v room (omega arith) (omega arith)
            (rw (mod_step size start n, e) refl)))
