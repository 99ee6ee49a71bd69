-- ===== src/Base/Census.antt =====
-- Tables indexed by numbers (the slots of a pool, the places where threads stand) are functions of the
-- index. `put` writes one entry, and a census adds up a weight over the entries below `n`.
use Prim.Native.Nat.{ℕ, zero, suc, ◌+◌, ◌≤◌, ◌<◌}
use mathlib.Core.Path.{◌≡◌, refl}
use mathlib.Core.Logic.{ite}
use native.Mathlib.Decide.{dec_lt, ℕ_discrete}
use native.Mathlib.Omega.{arith}

abbrev pub put {ℓ} : {A : Type ℓ} → (ℕ → A) → ℕ → A → ℕ → A
put pc i p j = ite (ℕ_discrete i j) p (pc j)

module _ {ℓ} {A : Type ℓ} (weight : A → ℕ) where
  unfoldable pub census : ℕ → (ℕ → A) → ℕ
  census zero pc = 0
  census (suc n) pc = census n pc + weight (pc n)

  census-put_ge : (n : ℕ) (pc : ℕ → A) (i : ℕ) (p : A) → n ≤ i → census n (put pc i p) ≡ census n pc
  unfolding census
  census-put_ge zero pc i p h = refl
  census-put_ge (suc n) pc i p h = ground (arith, census-put_ge n pc i p)

  -- A write trades the weight of the old entry for that of the new one.
  pub census-put :
      (n : ℕ) (pc : ℕ → A) (i : ℕ) (p : A)
      → i < n
      → census n (put pc i p) + weight (pc i) ≡ census n pc + weight p
  unfolding census
  census-put zero pc i p h = absurd (omega arith)
  census-put (suc n) pc i p h = elim (dec_lt i n) [
    | yes below ↦ ground (arith, census-put n pc i p below)
    | no last ↦ ground (arith, census-put_ge n pc i p)
  ]

  pub weight-le-census : (n : ℕ) (pc : ℕ → A) (i : ℕ) → i < n → weight (pc i) ≤ census n pc
  unfolding census
  weight-le-census zero pc i h = absurd (omega arith)
  weight-le-census (suc n) pc i h = elim (dec_lt i n) [
    | yes below ↦ omega (arith, weight-le-census n pc i below)
    | no last ↦ ground arith
  ]

  pub census-zero : (n : ℕ) (p : A) → weight p ≡ 0 → census n (λ _. p) ≡ 0
  unfolding census
  census-zero zero p h = refl
  census-zero (suc n) p h = omega (arith, census-zero n p h)

  pub census-le : ((p : A) → weight p ≤ 1) → (n : ℕ) (pc : ℕ → A) → census n pc ≤ n
  unfolding census
  census-le h zero pc = omega arith
  census-le h (suc n) pc = omega (arith, h (pc n), census-le h n pc)

  pub census-pos : (n : ℕ) (pc : ℕ → A) → 0 < census n pc → (i : ℕ) × (i < n) × (0 < weight (pc i))
  unfolding census
  census-pos zero pc h = absurd (omega arith)
  census-pos (suc n) pc h = elim (dec_lt 0 (census n pc)) [
    | yes p ↦ let (i, lt, w) = census-pos n pc p in (i, omega arith, w)
    | no p ↦ (n, omega arith, omega arith)
  ]

  pub census-none : (n : ℕ) (pc : ℕ → A) → ((i : ℕ) → i < n → weight (pc i) ≡ 0) → census n pc ≡ 0
  unfolding census
  census-none zero pc h = refl
  census-none (suc n) pc h =
      omega (arith, census-none n pc (λ i p. h i (omega arith)), h n (omega arith))
