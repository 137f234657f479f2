-- ===== src/Kstring/Text.antt =====
-- The functions of kernel/lib/kstring.c on strings that end with a zero byte, in a memory of bytes.
use drunix_os.Base.{
  Bool, ℕ, zero, suc, ◌+◌, ◌%◌, ◌^◌, not, ◌&&◌, ◌||◌, Option, none, some, ltb, ◌==◌, if◌then◌else◌,
  ◌>>=◌,
}
use drunix_os.Kstring.Memory.{Memory, poke, Order, equal, less, greater}

-- A loop that runs to a zero byte has its rounds as an argument; `none` is where they are used up.
unfoldable pub strlen_from : ℕ → Memory → ℕ → ℕ → Option ℕ
strlen_from zero m s n = none
strlen_from (suc rounds) m s n =
    let rest = strlen_from rounds m (s + 1) ((n + 1) % 2 ^ 32) in if m s == 0 then some n else rest

unfoldable pub k_strlen : ℕ → Memory → ℕ → Option ℕ
k_strlen rounds m s = strlen_from rounds m s 0

-- The loop of `k_strnlen`, by what is left up to the maximum.
unfoldable pub strnlen_from : ℕ → Memory → ℕ → ℕ → ℕ
strnlen_from zero m s n = n
strnlen_from (suc left) m s n =
    let rest = strnlen_from left m (s + 1) (n + 1) in if m s == 0 then n else rest

unfoldable pub k_strnlen : Memory → ℕ → ℕ → ℕ
k_strnlen m s max = strnlen_from max m s 0

unfoldable pub k_strcpy : ℕ → Memory → ℕ → ℕ → Option Memory
k_strcpy zero m d s = none
k_strcpy (suc rounds) m d s =
    let next = poke m d (m s) in
    let rest = k_strcpy rounds next (d + 1) (s + 1) in if m s == 0 then some next else rest

-- Once the source is at its zero byte, it stays there.
unfoldable pub k_strncpy : Memory → ℕ → ℕ → ℕ → Memory
k_strncpy m d s zero = m
k_strncpy m d s (suc n) = k_strncpy (poke m d (m s)) (d + 1) (if m s == 0 then s else s + 1) n

-- The first loop of `k_strcat`.
unfoldable pub string_end : ℕ → Memory → ℕ → Option ℕ
string_end zero m d = none
string_end (suc rounds) m d =
    let rest = string_end rounds m (d + 1) in if m d == 0 then some d else rest

unfoldable pub k_strcat : ℕ → Memory → ℕ → ℕ → Option Memory
k_strcat rounds m d s = string_end rounds m d >>= λ e. k_strcpy rounds m e s

-- The sign of the difference of the first bytes that differ.
abbrev pub sign : Memory → ℕ → ℕ → Order
sign m a b = if m a == m b then equal else if ltb (m a) (m b) then less else greater

unfoldable pub k_strcmp : ℕ → Memory → ℕ → ℕ → Option Order
k_strcmp zero m a b = none
k_strcmp (suc rounds) m a b =
    let rest = k_strcmp rounds m (a + 1) (b + 1) in
    if not (m a == 0) && m a == m b then rest else some (sign m a b)

unfoldable pub k_strncmp : Memory → ℕ → ℕ → ℕ → Order
k_strncmp m a b zero = equal
k_strncmp m a b (suc n) =
    let rest = k_strncmp m (a + 1) (b + 1) n in
    if m a == 0 || not (m a == m b) then sign m a b else rest

-- The address of the first byte `c`, or none; the zero byte at the end is looked at too.
unfoldable pub k_strchr : ℕ → Memory → ℕ → ℕ → Option (Option ℕ)
k_strchr zero m s c = none
k_strchr (suc rounds) m s c =
    let rest = k_strchr rounds m (s + 1) c in
    if m s == c % 256 then some (some s) else if m s == 0 then some none else rest

-- The second loop of `k_strncat`, and its last store.
unfoldable pub append_up_to : ℕ → Memory → ℕ → ℕ → Memory
append_up_to zero m d s = poke m d 0
append_up_to (suc n) m d s =
    let next = poke m d (m s) in
    let rest = append_up_to n next (d + 1) (s + 1) in if m s == 0 then poke next d 0 else rest

unfoldable pub k_strncat : ℕ → Memory → ℕ → ℕ → ℕ → Option Memory
k_strncat rounds m d s n = string_end rounds m d >>= λ e. some (append_up_to n m e s)

-- The loop of `k_strrchr`, with the last address found.
unfoldable pub last_from : ℕ → Memory → ℕ → ℕ → Option ℕ → Option (Option ℕ)
last_from zero m s c last = none
last_from (suc rounds) m s c last =
    let found = if m s == c % 256 then some s else last in
    let rest = last_from rounds m (s + 1) c found in if m s == 0 then some found else rest

unfoldable pub k_strrchr : ℕ → Memory → ℕ → ℕ → Option (Option ℕ)
k_strrchr rounds m s c = last_from rounds m s c none

-- The inner loop of `k_strstr`: whether the string at `h` starts with the one at `n`.
unfoldable pub starts_with : ℕ → Memory → ℕ → ℕ → Option Bool
starts_with zero m h n = none
starts_with (suc rounds) m h n =
    let rest = starts_with rounds m (h + 1) (n + 1) in
    if not (m h == 0) && not (m n == 0) && m h == m n then rest else some (m n == 0)

-- The outer loop.
unfoldable pub search_from : ℕ → ℕ → Memory → ℕ → ℕ → Option (Option ℕ)
search_from inner zero m h n = none
search_from inner (suc rounds) m h n =
    let rest = search_from inner rounds m (h + 1) n in
    if m h == 0
    then some none
    else (starts_with inner m h n >>= λ b. if b then some (some h) else rest)

unfoldable pub k_strstr : ℕ → Memory → ℕ → ℕ → Option (Option ℕ)
k_strstr rounds m haystack needle =
    if m needle == 0 then some (some haystack) else search_from rounds rounds m haystack needle
