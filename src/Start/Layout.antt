-- ===== src/Start/Layout.antt =====
-- Where src/start.c puts the thread-local storage of a thread.
use neoos_libneoos.Base.{
  ℕ, ◌+◌, ◌-◌, ◌*◌, ◌/◌, ◌%◌, ◌^◌, ◌≤◌, ◌<◌, ◌≡◌, arith, ◌∙◌, ap, if◌then◌else◌, ltb, ◌==◌, ◌⊎◌,
  inl, inr, Bool-cases, sym, refl,
}
use Prim.Native.Nat.{bit_and}
use neoos_libneoos.Start.Masks.{bit_and-ones}
use neoos_libneoos.Start.{align_up, Phdr, template_of, block_need, block_base, thread_pointer}

-- `a` rounded up to at least 8, as `align_up` does.
abbrev pub unit : ℕ → ℕ
unit a = if ltb a 8 then 8 else a

-- An alignment in an ELF program header: none, or a power of two.
abbrev pub IsAlignment : ℕ → Type 0
IsAlignment a = (a ≡ 0) ⊎ ((k : ℕ) × (a ≡ 2 ^ k))

-- The alignment that `align_up` works with is then a power of two.
unit-power : (a : ℕ) → IsAlignment a → (k : ℕ) × (unit a ≡ 2 ^ k)
unit-power a (inl e) = (3, ground (arith, e))
unit-power a (inr (k, e)) = elim (Bool-cases (ltb a 8)) [
  | inl small ↦ (3, rw small refl)
  | inr large ↦ (k, rw large e)
]

same_unit : (a : ℕ) → unit (if a == 0 then 8 else a) ≡ unit a
same_unit a = ground arith

round_down : (w m : ℕ) → 0 < m → (w - w % m ≡ w / m * m) × (w % m < m)
round_down w m h = grind arith

bounds : (v m w r : ℕ) → w ≡ v + (m - 1) → 8 ≤ m → r < m → (v ≤ w - r) × (w - r < v + m)
bounds v m w r e h hr = (omega arith, omega arith)

-- `align_up` gives the least multiple of the alignment that is not below `v`.
align_up-least :
    (v a m : ℕ)
    → unit a ≡ m
    → (k : ℕ) × (m ≡ 2 ^ k)
    → 8 ≤ m
    → v + m < 2 ^ 64
    → (v ≤ align_up v a) × (align_up v a < v + m) × ((q : ℕ) × (align_up v a ≡ q * m))
unfolding align_up
align_up-least v a m e (k, power) low h =
    let w = (v + (m - 1)) % 2 ^ 64 in
    let (down, rest) = round_down w m (omega arith) in
    let mask : bit_and w (m - 1) ≡ w % m =
      ap (λ x. bit_and w (x - 1)) power ∙ bit_and-ones k w ∙ ap (λ x. w % x) (sym power) in
    let (ge, lt) = bounds v m w (w % m) (omega arith) low rest in
    rw (e, mask) (ge, lt, (w / m, down))

sums :
    (raw memsz m align base size : ℕ)
    → raw ≤ base
    → base < raw + m
    → memsz ≤ size
    → size < memsz + m
    → m ≤ align + 8
    → align ≤ m
    → raw + memsz + 4 * m + 64 < 2 ^ 64
    → (base + memsz ≤ (base + size) % 2 ^ 64)
      × ((base + size) % 2 ^ 64 + 8 ≤ raw + (size + align + 64) % 2 ^ 64)
      × ((base + size) % 2 ^ 64 ≡ base + size)
sums raw memsz m align base size a b c d e f h = (omega arith, omega arith, omega arith)

together : (q p m : ℕ) → q * m + p * m ≡ (q + p) * m
together q p m = grind arith

-- The block and the word above it lie inside the mapping, and the thread pointer is a multiple of the
-- alignment, but at least of 8, for every PT_TLS header with an alignment that is 0 or a power of two, as
-- ELF requires, and every mapping for which the sums stay below 2^64.
pub tls_layout :
    (ph : Phdr) (raw : ℕ)
    → IsAlignment ph.p_align
    → raw + ph.p_memsz + 4 * unit ph.p_align + 64 < 2 ^ 64
    → (raw ≤ block_base (template_of ph) raw)
      × (block_base (template_of ph) raw + ph.p_memsz ≤ thread_pointer (template_of ph) raw)
      × (thread_pointer (template_of ph) raw + 8 ≤ raw + block_need (template_of ph))
      × ((q : ℕ) × (thread_pointer (template_of ph) raw ≡ q * unit ph.p_align))
unfolding template_of block_base thread_pointer block_need
tls_layout ph raw ok h =
    let m = unit ph.p_align in
    let align = if ph.p_align == 0 then 8 else ph.p_align in
    let same : unit align ≡ m = same_unit ph.p_align in
    let power = unit-power ph.p_align ok in
    let low : 8 ≤ m = ground arith in
    let (ge, lt, (q, multiple)) = align_up-least raw align m same power low (omega (arith, low)) in
    let (ge₂, lt₂, (p, multiple₂)) =
      align_up-least ph.p_memsz align m same power low (omega (arith, low)) in
    let (above, inside, exact) =
      sums raw ph.p_memsz m align (align_up raw align) (align_up ph.p_memsz align) ge lt ge₂ lt₂
        (ground arith) (ground arith) h in
    (
      ge,
      above,
      inside,
      (
        q + p,
        exact
            ∙ ap (λ b. b + align_up ph.p_memsz align) multiple
            ∙ ap (λ b. q * m + b) multiple₂
            ∙ together q p m,
      ),
    )
