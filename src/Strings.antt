-- ===== src/Strings.antt =====
-- src/string.c. Memory is a function from addresses to bytes; `unsigned char` is a number below 256.
-- A loop that ends at a NUL takes fuel, and `none` means that it ran out.
pub mod Move
pub mod Compare
mod Tests
use neoos_libneoos.Base.{
  ℕ, zero, suc, ◌+◌, ◌-◌, ◌%◌, ◌==◌, Bool, true, false, not, ◌&&◌, Option, none, some,
  if◌then◌else◌, ltb,
}
use neoos_libneoos.Base.Int.{ℤ, pos, sub_ℕ, word32}
use neoos_libneoos.Base.Census.{put}

abbrev pub Memory : Type 0
Memory = ℕ → ℕ

-- The loop of `strlen`, with `n` bytes behind it.
unfoldable pub strlen_loop : ℕ → Memory → ℕ → ℕ → Option ℕ
strlen_loop zero m s n = none
strlen_loop (suc k) m s n =
    let rest = strlen_loop k m s (n + 1) in if m (s + n) == 0 then some n else rest

-- `strlen`
unfoldable pub strlen : ℕ → Memory → ℕ → Option ℕ
unfolding strlen_loop
strlen fuel m s = strlen_loop fuel m s 0

-- The loop upwards of `memcpy` and `memmove`: `k` bytes are left, from the `i`-th on.
unfoldable pub copy_up : ℕ → ℕ → ℕ → ℕ → Memory → Memory
copy_up d s zero i m = m
copy_up d s (suc k) i m = copy_up d s k (i + 1) (put m (d + i) (m (s + i)))

-- The loop downwards of `memmove`: `i` bytes are left.
unfoldable pub copy_down : ℕ → ℕ → ℕ → Memory → Memory
copy_down d s zero m = m
copy_down d s (suc i) m = copy_down d s i (put m (d + i) (m (s + i)))

-- `memcpy`
unfoldable pub memcpy : ℕ → ℕ → ℕ → Memory → Memory
memcpy dst src n m = copy_up dst src n 0 m

-- `memmove`
unfoldable pub memmove : ℕ → ℕ → ℕ → Memory → Memory
memmove dst src n m = if ltb dst src then copy_up dst src n 0 m else copy_down dst src n m

-- The loop of `memset`.
unfoldable pub set_up : ℕ → ℕ → ℕ → ℕ → Memory → Memory
set_up s byte zero i m = m
set_up s byte (suc k) i m = set_up s byte k (i + 1) (put m (s + i) byte)

-- `memset`; the value is cut to a byte.
unfoldable pub memset : ℕ → ℤ → ℕ → Memory → Memory
memset s c n m = set_up s (word32 c % 256) n 0 m

-- `strcmp`
unfoldable pub strcmp : ℕ → Memory → ℕ → ℕ → Option ℤ
strcmp zero m x y = none
strcmp (suc k) m x y =
    let rest = strcmp k m (x + 1) (y + 1) in
    if not (m x == 0) && (m x == m y) then rest else some (sub_ℕ (m x) (m y))

-- The loop of `strncmp`: `k` bytes are left, from the `i`-th on.
unfoldable pub strncmp_loop : ℕ → Memory → ℕ → ℕ → ℕ → ℤ
strncmp_loop zero m x y i = pos 0
strncmp_loop (suc k) m x y i =
    let rest = strncmp_loop k m x y (i + 1) in
    if not (m (x + i) == m (y + i))
    then sub_ℕ (m (x + i)) (m (y + i))
    else if m (x + i) == 0
    then pos 0
    else rest

-- `strncmp`
unfoldable pub strncmp : Memory → ℕ → ℕ → ℕ → ℤ
unfolding strncmp_loop
strncmp m a b n = strncmp_loop n m a b 0

-- The loop of `memcmp`.
unfoldable pub memcmp_loop : ℕ → Memory → ℕ → ℕ → ℕ → ℤ
memcmp_loop zero m x y i = pos 0
memcmp_loop (suc k) m x y i =
    let rest = memcmp_loop k m x y (i + 1) in
    if not (m (x + i) == m (y + i)) then sub_ℕ (m (x + i)) (m (y + i)) else rest

-- `memcmp`
unfoldable pub memcmp : Memory → ℕ → ℕ → ℕ → ℤ
unfolding memcmp_loop
memcmp m a b n = memcmp_loop n m a b 0
