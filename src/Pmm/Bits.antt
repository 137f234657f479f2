-- ===== src/Pmm/Bits.antt =====
-- The bit operations on one byte of the bitmap of kernel/mm/pmm_core.c, and their laws, checked
-- for all bytes.
use drunix_os.Base.{
  ℕ, ◌-◌, ◌^◌, ◌<◌, ◌≡◌, refl, Bool, true, false, not, ◌&&◌, ◌||◌, arith, ltb, ◌==◌, all_below,
  all_below_sound, bit_and, bit_or,
}

-- `byte | (1u << k)`
unfoldable pub byte_set : ℕ → ℕ → ℕ
byte_set byte k = bit_or byte (2 ^ k)

-- `byte & (uint8_t)~(1u << k)`
unfoldable pub byte_clear : ℕ → ℕ → ℕ
byte_clear byte k = bit_and byte (255 - 2 ^ k)

-- `byte & (1u << k)` as a test
unfoldable pub bit_at : ℕ → ℕ → Bool
bit_at byte k = not (bit_and byte (2 ^ k) == 0)

same : Bool → Bool → Bool
same true b = b
same false b = not b

same-eq : (a b : Bool) → same a b ≡ true → a ≡ b
unfolding same
same-eq a b h = ground arith

set_table :
    all_below 8 (λ k. all_below 8 (λ j.
      all_below 256
        (λ b. same (bit_at (byte_set b k) j) ((j == k) || bit_at b j) && ltb (byte_set b k) 256)))
    ≡ true
unfolding all_below same bit_at byte_set
set_table = refl

clear_table :
    all_below 8 (λ k. all_below 8 (λ j. all_below 256 (λ b.
      same (bit_at (byte_clear b k) j) (not (j == k) && bit_at b j) && ltb (byte_clear b k) 256)))
    ≡ true
unfolding all_below same bit_at byte_clear
clear_table = refl

module _ (b k j : ℕ) (hb : b < 256) (hk : k < 8) (hj : j < 8) where
  set_both :
      (same (bit_at (byte_set b k) j) ((j == k) || bit_at b j) && ltb (byte_set b k) 256) ≡ true
  set_both =
      all_below_sound 256 _ b (all_below_sound 8 _ j (all_below_sound 8 _ k set_table hk) hj) hb

  pub bit_at-byte_set : bit_at (byte_set b k) j ≡ ((j == k) || bit_at b j)
  bit_at-byte_set =
      ground (arith, set_both, same-eq (bit_at (byte_set b k) j) ((j == k) || bit_at b j))

  pub byte_set-lt : byte_set b k < 256
  byte_set-lt = ground (arith, set_both)

  clear_both :
      (same (bit_at (byte_clear b k) j) (not (j == k) && bit_at b j) && ltb (byte_clear b k) 256)
      ≡ true
  clear_both =
      all_below_sound 256 _ b (all_below_sound 8 _ j (all_below_sound 8 _ k clear_table hk) hj) hb

  pub bit_at-byte_clear : bit_at (byte_clear b k) j ≡ (not (j == k) && bit_at b j)
  bit_at-byte_clear =
      ground (arith, clear_both, same-eq (bit_at (byte_clear b k) j) (not (j == k) && bit_at b j))

  pub byte_clear-lt : byte_clear b k < 256
  byte_clear-lt = ground (arith, clear_both)

full_table : all_below 8 (λ j. bit_at 255 j) ≡ true
unfolding all_below bit_at
full_table = refl

pub bit_at_full : (j : ℕ) → j < 8 → bit_at 255 j ≡ true
bit_at_full j h = all_below_sound 8 (λ j. bit_at 255 j) j full_table h
