-- ===== src/Start/Masks.antt =====
-- The mask `& ~(a - 1)` of `align_up` in src/start.c, as arithmetic.
use Prim.Native.Nat.{min, digits, bit_and, bit_and-bitwise}
use neoos_libneoos.Base.{
  ℕ, zero, suc, ◌+◌, ◌-◌, ◌*◌, ◌/◌, ◌%◌, ◌^◌, ◌≤◌, ◌<◌, ◌≡◌, refl, arith, ap, sym, ◌∙◌,
}
use native.Mathlib.Nat.{le_refl, pow-suc, one-le-pow, mod-add-div, div-div-eq-div-mul}

-- No bit is common with 0.
digits-empty : (n a : ℕ) → a ≤ n → digits (λ b. zero) min n a 0 ≡ 0
digits-empty zero zero h = refl
digits-empty zero (suc a) h = absurd (omega arith)
digits-empty (suc n) zero h = refl
digits-empty (suc n) (suc a) h = omega (arith, digits-empty n (suc a / 2) (omega arith))

-- One bit more: the rest of the mask, and its last bit.
ones_half : (k : ℕ) → (2 ^ suc k - 1) / 2 ≡ 2 ^ k - 1
ones_half k = omega (arith, pow-suc 2 k, one-le-pow k 2)

ones_odd : (k : ℕ) → (2 ^ suc k - 1) % 2 ≡ 1
ones_odd k = omega (arith, pow-suc 2 k, one-le-pow k 2)

doubled : (p x : ℕ) → 2 * p * x ≡ 2 * (p * x)
doubled p x = grind arith

remainder_half : (p q a : ℕ) → q ≡ p * 2 → 0 < p → a / 2 % p * 2 + a % 2 ≡ a % q
remainder_half p q a e h =
    let x = a / 2 / p in
    let order : q ≡ 2 * p = omega (arith, e) in
    let twice : q * x ≡ 2 * (p * x) = ap (λ y. y * x) order ∙ doubled p x in
    let same : a / q ≡ x = ap (λ y. a / y) order ∙ sym (div-div-eq-div-mul a 2 p) in
    omega (arith, twice, mod-add-div (a / 2) p, mod-add-div a q, ap (λ y. q * y) same)

digits-mask : (k n a : ℕ) → a ≤ n → digits (λ b. zero) min n a (2 ^ k - 1) ≡ a % 2 ^ k
digits-mask zero n a h = omega (arith, digits-empty n a h)
digits-mask (suc k) zero zero h = omega (arith, one-le-pow (suc k) 2)
digits-mask (suc k) zero (suc a) h = absurd (omega arith)
digits-mask (suc k) (suc n) zero h = omega (arith, one-le-pow (suc k) 2)
digits-mask (suc k) (suc n) (suc a) h =
    rw (ones_half k, ones_odd k, digits-mask k n (suc a / 2) (omega arith))
      (omega (
        arith,
        remainder_half (2 ^ k) (2 ^ suc k) (suc a) (pow-suc 2 k) (one-le-pow k 2 (omega arith)),
      ))

-- The bits of `w` that a mask of `k` ones keeps are its remainder.
pub bit_and-ones : (k w : ℕ) → bit_and w (2 ^ k - 1) ≡ w % 2 ^ k
bit_and-ones k w = simp bit_and-bitwise (digits-mask k w w (le_refl _))
