-- ===== src/Kstring/Memory.antt =====
-- The functions of kernel/lib/kstring.c on memory, which is a function from addresses to bytes.
use drunix_os.Base.{
  ℕ, zero, suc, ◌+◌, ◌-◌, ◌*◌, ◌/◌, ◌%◌, ◌^◌, Bool, ◌&&◌, ◌||◌, ltb, leb, ◌==◌, if◌then◌else◌,
  bit_and, bit_or,
}

abbrev pub Memory : Type 0
Memory = ℕ → ℕ

-- The store of a byte.
unfoldable pub poke : Memory → ℕ → ℕ → Memory
poke m a v k = if k == a then v else m k

-- The store of the four bytes loaded from `s`.
unfoldable pub copy_word : Memory → ℕ → ℕ → Memory
copy_word m d s k = if leb d k && ltb k (d + 4) then m (s + (k - d)) else m k

-- The store of a 32-bit value, lowest byte first.
unfoldable pub poke_word : Memory → ℕ → ℕ → Memory
poke_word m d v k = if leb d k && ltb k (d + 4) then v / 2 ^ (8 * (k - d)) % 256 else m k

-- Whether neither address has one of its two low bits set.
unfoldable pub both_aligned : ℕ → ℕ → Bool
both_aligned d s = bit_and (bit_or d s) 3 == 0

-- The loops that copy upwards, by bytes and by words.
unfoldable pub copy_up : ℕ → Memory → ℕ → ℕ → Memory
copy_up zero m d s = m
copy_up (suc n) m d s = copy_up n (poke m d (m s)) (d + 1) (s + 1)

unfoldable pub words_up : ℕ → Memory → ℕ → ℕ → Memory
words_up zero m d s = m
words_up (suc words) m d s = words_up words (copy_word m d s) (d + 4) (s + 4)

-- The loops that copy downwards from the ends.
unfoldable pub copy_down : ℕ → Memory → ℕ → ℕ → Memory
copy_down zero m d s = m
copy_down (suc n) m d s = copy_down n (poke m (d - 1) (m (s - 1))) (d - 1) (s - 1)

unfoldable pub words_down : ℕ → Memory → ℕ → ℕ → Memory
words_down zero m d s = m
words_down (suc words) m d s = words_down words (copy_word m (d - 4) (s - 4)) (d - 4) (s - 4)

-- `while (n >= 4)` runs `n / 4` times and leaves `n % 4`.
unfoldable pub k_memcpy : Memory → ℕ → ℕ → ℕ → Memory
k_memcpy m d s n =
    let done = 4 * (n / 4) in
    if both_aligned d s
    then copy_up (n % 4) (words_up (n / 4) m d s) (d + done) (s + done)
    else copy_up n m d s

unfoldable pub k_memmove : Memory → ℕ → ℕ → ℕ → Memory
k_memmove m d s n =
    let done = 4 * (n / 4) in
    let d_end = d + n in
    let s_end = s + n in
    if ltb d s || leb (s + n) d
    then (if both_aligned d s
        then copy_up (n % 4) (words_up (n / 4) m d s) (d + done) (s + done)
        else copy_up n m d s)
    else (if both_aligned d_end s_end
        then copy_down (n % 4) (words_down (n / 4) m d_end s_end) (d_end - done) (s_end - done)
        else copy_down n m d_end s_end)

unfoldable pub k_memset32 : Memory → ℕ → ℕ → ℕ → Memory
k_memset32 m p value zero = m
k_memset32 m p value (suc count) = k_memset32 (poke_word m p value) (p + 4) value count

-- The loop that stores single bytes.
unfoldable pub fill_up : ℕ → Memory → ℕ → ℕ → Memory
fill_up zero m p byte = m
fill_up (suc n) m p byte = fill_up n (poke m p byte) (p + 1) byte

-- The first loop of `k_memset`, up to an aligned address: the memory, the address and what is left.
unfoldable pub fill_head : ℕ → Memory → ℕ → ℕ → Memory × ℕ × ℕ
fill_head zero m p byte = (m, p, zero)
fill_head (suc n) m p byte =
    let rest = fill_head n (poke m p byte) (p + 1) byte in
    if bit_and p 3 == 0 then (m, p, suc n) else rest

unfoldable pub fill_pattern : ℕ → ℕ
fill_pattern byte =
    let two = bit_or byte (byte * 2 ^ 8 % 2 ^ 32) in bit_or two (two * 2 ^ 16 % 2 ^ 32)

unfoldable pub k_memset : Memory → ℕ → ℕ → ℕ → Memory
k_memset m s c n =
    let byte = c % 256 in
    let (m1, p, left) = fill_head n m s byte in
    let words = left / 4 in
    let m2 = if leb 4 left then k_memset32 m1 p (fill_pattern byte) words else m1 in
    let done = if leb 4 left then words * 4 else 0 in fill_up (left - done) m2 (p + done) byte

-- The sign of the difference that k_memcmp returns.
pub data Order : Type 0 where
  equal less greater : Order

unfoldable pub k_memcmp : Memory → ℕ → ℕ → ℕ → Order
k_memcmp m a b zero = equal
k_memcmp m a b (suc n) =
    if m a == m b then k_memcmp m (a + 1) (b + 1) n else if ltb (m a) (m b) then less else greater
