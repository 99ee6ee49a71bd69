-- ===== src/Strings/Compare.antt =====
-- `strlen` and the comparisons of src/string.c against lists of bytes.
use native.Mathlib.Nat.{add_assoc, add-zero}
use neoos_libneoos.Base.{
  sym, subst, ◌∙◌, some-injective, ℕ, zero, suc, ◌+◌, ◌<◌, ◌≡◌, ◌≢◌, ◌↔◌, refl, arith, some, List,
  [], ◌∷◌, if◌then◌else◌, ◌==◌, length, ap,
}
use neoos_libneoos.Base.Int.{ℤ, pos, sub_ℕ}
use neoos_libneoos.Strings.{
  Memory, strlen_loop, strlen, strcmp, strncmp_loop, strncmp, memcmp_loop, memcmp,
}

-- At `s` stands the C string `xs`: its bytes, none of them 0, and a NUL behind them.
abbrev pub IsStr : Memory → ℕ → List ℕ → Type 0
IsStr m s [] = m s ≡ 0
IsStr m s (x ∷ xs) = (m s ≡ x) × (x ≢ 0) × IsStr m (s + 1) xs

-- The difference of the first bytes in which two lists differ, as unsigned values; the end counts as 0.
unfoldable pub difference : List ℕ → List ℕ → ℤ
difference [] [] = pos 0
difference [] (y ∷ ys) = sub_ℕ 0 y
difference (x ∷ xs) [] = sub_ℕ x 0
difference (x ∷ xs) (y ∷ ys) = if x == y then difference xs ys else sub_ℕ x y

strlen_loop-length :
    (xs : List ℕ) (fuel : ℕ) (m : Memory) (s n : ℕ)
    → IsStr m (s + n) xs
    → length xs < fuel
    → strlen_loop fuel m s n ≡ some (n + length xs)
unfolding strlen_loop
strlen_loop-length xs zero m s n h fuel = absurd (omega arith)
strlen_loop-length [] (suc k) m s n h fuel = ground arith
strlen_loop-length (x ∷ xs) (suc k) m s n (e, ne, h) fuel =
    let h' : IsStr m (s + (n + 1)) xs = subst (λ a. IsStr m a xs) (add_assoc s n 1) h in
    ground (arith, strlen_loop-length xs k m s (n + 1) h')

strcmp-difference :
    (xs ys : List ℕ) (fuel : ℕ) (m : Memory) (a b : ℕ)
    → IsStr m a xs
    → IsStr m b ys
    → length xs < fuel
    → strcmp fuel m a b ≡ some (difference xs ys)
unfolding strcmp difference
strcmp-difference xs ys zero m a b h h' fuel = absurd (omega arith)
strcmp-difference [] [] (suc k) m a b h h' fuel = ground arith
strcmp-difference [] (y ∷ ys) (suc k) m a b h h' fuel = ground arith
strcmp-difference (x ∷ xs) [] (suc k) m a b h h' fuel = ground arith
strcmp-difference (x ∷ xs) (y ∷ ys) (suc k) m a b h h' fuel =
    ground (arith, strcmp-difference xs ys k m (a + 1) (b + 1))

-- With fuel beyond its length, `strlen` counts the bytes of the string before the NUL.
pub strlen-length :
    (xs : List ℕ) (fuel : ℕ) (m : Memory) (s : ℕ)
    → IsStr m s xs
    → length xs < fuel
    → strlen fuel m s ≡ some (length xs)
unfolding strlen
strlen-length xs fuel m s h f =
    strlen_loop-length xs fuel m s 0 (subst (λ a. IsStr m a xs) (sym (add-zero s)) h) f
    ∙ ap some (omega arith)

difference-zero :
    (xs ys : List ℕ) (m : Memory) (a b : ℕ)
    → IsStr m a xs
    → IsStr m b ys
    → difference xs ys ≡ pos 0
    → xs ≡ ys
unfolding difference
difference-zero [] [] m a b h h' e = refl
difference-zero [] (y ∷ ys) m a b h h' e = ground arith
difference-zero (x ∷ xs) [] m a b h h' e = ground arith
difference-zero (x ∷ xs) (y ∷ ys) m a b h h' e =
    ground (arith, difference-zero xs ys m (a + 1) (b + 1))

difference_self : (xs : List ℕ) → difference xs xs ≡ pos 0
unfolding difference
difference_self [] = refl
difference_self (x ∷ xs) = ground (arith, difference_self xs)

-- With fuel beyond the length of the first string `strcmp` returns the difference of the first bytes in
-- which the strings differ, taken as unsigned; it is 0 exactly for equal strings.
pub strcmp_lem :
    (xs ys : List ℕ) (fuel : ℕ) (m : Memory) (a b : ℕ)
    → IsStr m a xs
    → IsStr m b ys
    → length xs < fuel
    → (strcmp fuel m a b ≡ some (difference xs ys))
      × ((strcmp fuel m a b ≡ some (pos 0)) ↔ (xs ≡ ys))
strcmp_lem xs ys fuel m a b h h' f =
    let e = strcmp-difference xs ys fuel m a b h h' f in
    (
      e,
      (
        λ z. difference-zero xs ys m a b h h' (some-injective _ _ (sym e ∙ z)),
        λ z. e ∙ ap some (ap (λ l. difference l ys) z ∙ difference_self ys),
      ),
    )

-- The `k` bytes at `a + i` and up, and those of them before the first NUL.
abbrev pub window : Memory → ℕ → ℕ → ℕ → List ℕ
window m a i zero = []
window m a i (suc k) = m (a + i) ∷ window m a (i + 1) k

unfoldable pub until_nul : List ℕ → List ℕ
until_nul [] = []
until_nul (x ∷ xs) = if x == 0 then [] else x ∷ until_nul xs

memcmp_loop-difference :
    (k : ℕ) (m : Memory) (a b i : ℕ)
    → memcmp_loop k m a b i ≡ difference (window m a i k) (window m b i k)
unfolding memcmp_loop difference
memcmp_loop-difference zero m a b i = refl
memcmp_loop-difference (suc k) m a b i = ground (arith, memcmp_loop-difference k m a b (i + 1))

strncmp_loop-difference :
    (k : ℕ) (m : Memory) (a b i : ℕ)
    → strncmp_loop k m a b i ≡ difference (until_nul (window m a i k)) (until_nul (window m b i k))
unfolding strncmp_loop difference until_nul
strncmp_loop-difference zero m a b i = refl
strncmp_loop-difference (suc k) m a b i = ground (arith, strncmp_loop-difference k m a b (i + 1))

-- `memcmp` compares the `n` bytes at its arguments, and `strncmp` what of them stands before a NUL, by
-- the first bytes that differ.
pub memcmp_strncmp_lem :
    (m : Memory) (a b n : ℕ)
    → (memcmp m a b n ≡ difference (window m a 0 n) (window m b 0 n))
      × (strncmp m a b n ≡ difference (until_nul (window m a 0 n)) (until_nul (window m b 0 n)))
unfolding memcmp strncmp
memcmp_strncmp_lem m a b n = (memcmp_loop-difference n m a b 0, strncmp_loop-difference n m a b 0)
