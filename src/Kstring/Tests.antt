-- ===== src/Kstring/Tests.antt =====
-- Runs of the model of kernel/lib/kstring.c on small blocks.
use drunix_os.Base.{
  some, refl, zero, suc, suc, ◌≢◌, ◌+◌, ◌<◌, ℕ, ◌-◌, [], ◌∷◌, get_or, ◌≡◌, inl, arith,
}
use drunix_os.Kstring.Strings.{IsString, CopyOf, k_strcat-CopyOf}
use drunix_os.Kstring.Text.{starts_with, search_from, last_from, k_strrchr, k_strstr, k_strcat}
use drunix_os.Kstring.Memory.{Memory, k_memmove, k_memset, k_memcmp}
use drunix_os.Kstring.Move.{moved}
use drunix_os.Kstring.Copies.{k_memmove-moved}
use drunix_os.Kstring.Fill.{filled, k_memset-filled}
use drunix_os.Kstring.Compare.{Compared, k_memcmp-Compared}

abbrev ramp : Memory
ramp k = k

k_memmove-moved_example : k_memmove ramp 4 0 9 8 ≡ moved ramp 4 0 9 8
k_memmove-moved_example = k_memmove-moved ramp 4 0 9 8

k_memset-filled_example : k_memset ramp 3 7 9 8 ≡ filled ramp 3 9 7 8
k_memset-filled_example = k_memset-filled ramp 3 7 9 8

k_memcmp-Compared_example : Compared ramp 3 5 2 (k_memcmp ramp 3 5 2)
k_memcmp-Compared_example = k_memcmp-Compared ramp 3 5 2

-- The string "ab" at 100, and "c" at 200.
abbrev two_strings : Memory
two_strings k = get_or (97 ∷ 98 ∷ 0 ∷ []) (k - 100) (get_or (99 ∷ 0 ∷ []) (k - 200) 7)

ab : IsString two_strings 100 2
ab = record { body = ab_body; last = refl }
  where
    ab_body : (j : ℕ) → j < 2 → two_strings (100 + j) ≢ 0
    ab_body zero h e = omega arith
    ab_body (suc zero) h e = omega arith
    ab_body (suc (suc j)) h e = omega arith

only_c : IsString two_strings 200 1
only_c = record { body = c_body; last = refl }
  where
    c_body : (j : ℕ) → j < 1 → two_strings (200 + j) ≢ 0
    c_body zero h e = omega arith
    c_body (suc j) h e = omega arith

k_strcat-CopyOf_example : CopyOf two_strings 102 200 2 (k_strcat 5 two_strings 100 200)
k_strcat-CopyOf_example =
    k_strcat-CopyOf 2 1 5 two_strings 100 200 ab only_c (omega arith) (omega arith)
      (inl (omega arith))

-- "b" is found in "ab" at 101.
found_b : k_strstr 5 two_strings 100 101 ≡ some (some 101)
unfolding k_strstr search_from starts_with
found_b = refl

last_b : k_strrchr 5 two_strings 100 98 ≡ some (some 101)
unfolding k_strrchr last_from
last_b = refl
