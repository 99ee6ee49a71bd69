-- ===== src/Stdio/Numbers.antt =====
-- The digits that `append_uint` of src/stdio.c writes.
use neoos_libneoos.Base.{
  ℕ, zero, suc, ◌+◌, ◌-◌, ◌*◌, ◌/◌, ◌%◌, ◌^◌, ◌≤◌, ◌<◌, ◌==◌, ◌≡◌, refl, ◌∙◌, ap, Bool, List, [],
  ◌∷◌, ◌++◌, if◌then◌else◌, ltb, arith, Bool-cases, inl, inr, sym, subst, ◌≢◌, ◌⊎◌, false,
}
use neoos_libneoos.Stdio.{digit_char, tmp_chars, uint_chars}
use mathlib.Core.List.{reverse, reverse-append}
use native.Mathlib.Nat.{pow-zero, pow-suc}

-- The number that a text of digits stands for, in either case.
abbrev pub digit_value : ℕ → ℕ
digit_value c = if ltb c b'A' then c - b'0' else if ltb c b'a' then c - b'A' + 10 else c - b'a' + 10

unfoldable pub read_digits : ℕ → List ℕ → ℕ → ℕ
read_digits base [] acc = acc
read_digits base (c ∷ cs) acc = read_digits base cs (acc * base + digit_value c)

read_digits-append :
    (base : ℕ) (xs ys : List ℕ) (acc : ℕ)
    → read_digits base (xs ++ ys) acc ≡ read_digits base ys (read_digits base xs acc)
unfolding read_digits
read_digits-append base [] ys acc = refl
read_digits-append base (c ∷ xs) ys acc = read_digits-append base xs ys (acc * base + digit_value c)

digit_value-digit_char : (u : Bool) (d : ℕ) → d < 16 → digit_value (digit_char u d) ≡ d
digit_value-digit_char u d h = ground arith

read_digits-one :
    (base : ℕ) (c acc : ℕ) → read_digits base (c ∷ []) acc ≡ acc * base + digit_value c
unfolding read_digits
read_digits-one base c acc = refl

module _ (base : ℕ) (u : Bool) (low : 2 ≤ base) (high : base ≤ 16) where
  divide : (v k : ℕ) → v < base ^ k * base → v / base < base ^ k
  divide v k h = grind arith

  recombine : (v : ℕ) → v / base * base + v % base ≡ v
  recombine v = grind arith

  digit-lt : (v : ℕ) → v % base < base
  digit-lt v = omega arith

  read_digits-tmp_chars :
      (k v : ℕ) → v < base ^ k → read_digits base (reverse (tmp_chars k v base u)) 0 ≡ v
  unfolding tmp_chars read_digits
  read_digits-tmp_chars zero v h = omega (arith, pow-zero base)
  read_digits-tmp_chars (suc k) v h = elim (Bool-cases (v == 0)) [
    | inl e ↦ rw e (ground arith)
    | inr e ↦
        let h₂ : v < base ^ k * base = rw pow-suc at h in
        let c = digit_char u (v % base) in
        rw (e, reverse-append (c ∷ []) (tmp_chars k (v / base) base u))
          (read_digits-append base (reverse (tmp_chars k (v / base) base u)) (c ∷ []) 0
            ∙ ap (λ a. a * base + digit_value c)
                (read_digits-tmp_chars k (v / base) (divide v k h₂))
            ∙ ap (λ d. v / base * base + d)
                (digit_value-digit_char u (v % base) (omega (arith, digit-lt v)))
            ∙ recombine v)
  ]

-- A digit of the base: '0' to '9', and from base 11 on the letters of the case that `u` gives.
abbrev pub IsDigit : ℕ → Bool → ℕ → Type 0
IsDigit base u c =
    ((b'0' ≤ c) × (c ≤ b'9') × (c < b'0' + base))
    ⊎ (((if u then b'A' else b'a') ≤ c) × (c + 10 < (if u then b'A' else b'a') + base))

pub data AreDigits (base : ℕ) (u : Bool) : List ℕ → Type 0 where
  no_more : AreDigits base u []
  one_more :
      {c : ℕ} {cs : List ℕ} → IsDigit base u c → AreDigits base u cs → AreDigits base u (c ∷ cs)

-- A text that begins with a digit other than '0' and goes on with digits.
pub data Leading (base : ℕ) (u : Bool) : List ℕ → Type 0 where
  leading :
      {c : ℕ} {cs : List ℕ}
      → IsDigit base u c
      → c ≢ b'0'
      → AreDigits base u cs
      → Leading base u (c ∷ cs)

-- The numeral of `v`: "0" for 0, and otherwise a text without leading zeros whose value is `v`.
pub data IsNumeral (base : ℕ) (u : Bool) (v : ℕ) (text : List ℕ) : Type 0 where
  zero_text : v ≡ 0 → text ≡ b'0' ∷ [] → IsNumeral base u v text
  digits : Leading base u text → read_digits base text 0 ≡ v → IsNumeral base u v text

AreDigits-append :
    {base : ℕ} {u : Bool} {cs : List ℕ} (d : ℕ)
    → AreDigits base u cs
    → IsDigit base u d
    → AreDigits base u (cs ++ d ∷ [])
AreDigits-append d no_more h = one_more h no_more
AreDigits-append d (one_more h hs) k = one_more h (AreDigits-append d hs k)

Leading-append :
    {base : ℕ} {u : Bool} {cs : List ℕ} (d : ℕ)
    → Leading base u cs
    → IsDigit base u d
    → Leading base u (cs ++ d ∷ [])
Leading-append d (leading h ne hs) k = leading h ne (AreDigits-append d hs k)

module _ (base : ℕ) (u : Bool) (low : 2 ≤ base) (high : base ≤ 16) where
  digit_char-IsDigit : (d : ℕ) → d < base → IsDigit base u (digit_char u d)
  digit_char-IsDigit d h = ground arith

  digit_char-nonzero : (d : ℕ) → d ≢ 0 → digit_char u d ≢ b'0'
  digit_char-nonzero d h = ground arith

  tmp_chars-none : (k : ℕ) → tmp_chars k 0 base u ≡ []
  unfolding tmp_chars
  tmp_chars-none zero = refl
  tmp_chars-none (suc k) = refl

  quotient_none : (v : ℕ) → v / base ≡ 0 → v % base ≡ v
  quotient_none v e = grind arith

  tmp_chars-Leading :
      (k v : ℕ) → v ≢ 0 → v < base ^ k → Leading base u (reverse (tmp_chars k v base u))
  unfolding tmp_chars
  tmp_chars-Leading zero v ne h = absurd (omega (arith, pow-zero base))
  tmp_chars-Leading (suc k) v ne h =
      let h₂ : v < base ^ k * base = rw pow-suc at h in
      let c = digit_char u (v % base) in
      let ok = digit_char-IsDigit (v % base) (digit-lt base u low high v) in
      let e : (v == 0) ≡ false = ground arith in
      rw (e, reverse-append (c ∷ []) (tmp_chars k (v / base) base u))
        (elim (Bool-cases (v / base == 0)) [
          | inl last ↦
              let gone : v / base ≡ 0 = ground (arith, last) in
              let digit : v % base ≢ 0 = subst (λ d. d ≢ 0) (sym (quotient_none v gone)) ne in
              rw (gone, tmp_chars-none k) (leading ok (digit_char-nonzero _ digit) no_more)
          | inr more ↦
              Leading-append c
                (tmp_chars-Leading k (v / base) (ground (arith, more))
                  (divide base u low high v k h₂))
                ok
        ])

  uint_chars-IsNumeral : (v : ℕ) → v < base ^ 32 → IsNumeral base u v (uint_chars v base u)
  unfolding uint_chars
  uint_chars-IsNumeral v h = elim (Bool-cases (v == 0)) [
    | inl e ↦ rw e (zero_text (ground (arith, e)) refl)
    | inr e ↦ rw e (
        digits (tmp_chars-Leading 32 v (ground (arith, e)) h)
          (read_digits-tmp_chars base u low high 32 v h))
  ]

-- `append_uint` writes the numeral of the value, for every 64-bit value, base 10 and 16, and either case:
-- "0" for 0, and otherwise digits of the base in that case, the first of them not '0', which read in the
-- base give the value back.
pub read_digits-uint_chars :
    (v : ℕ) (u : Bool)
    → v < 2 ^ 64
    → IsNumeral 10 u v (uint_chars v 10 u) × IsNumeral 16 u v (uint_chars v 16 u)
read_digits-uint_chars v u h = (
  uint_chars-IsNumeral 10 u (omega arith) (omega arith) v (omega arith),
  uint_chars-IsNumeral 16 u (omega arith) (omega arith) v (omega arith),
)
