-- ===== src/Mpi/Collective/Tokens.antt =====
-- Counting messages of src/mpi.c by the rank that sent them.
use neoos_libneoos.Base.Int.{ltb_ℤ, pos_part, pos, ℤ, eqb_ℤ}
use neoos_libneoos.Mpi.Defs.{any_source, matches, Message}
use neoos_libneoos.Base.Census.{census-none, census}
use neoos_libneoos.Mpi.Receive.Accept.{accepted}
use neoos_libneoos.Base.{
  [], refl, subst, ◌∙◌, ◌&&◌, ap, dec_lt, length, not, arith, true, ◌∷◌, ◌≡◌, ◌<◌, ◌==◌, ◌++◌, ◌≤◌,
  Bool, if◌then◌else◌, List, ℕ, zero, suc,
}

unfoldable pub count_from : ℕ → List Message → ℕ
count_from j [] = 0
count_from j (m ∷ ms) = let k = count_from j ms in if eqb_ℤ m.hdr.src (pos j) then suc k else k

-- Whether every message comes from a rank below `n`.
unfoldable pub from_ranks : ℕ → List Message → Bool
from_ranks n [] = true
from_ranks n (m ∷ ms) =
    let rest = from_ranks n ms in not (ltb_ℤ m.hdr.src (pos 0)) && ltb_ℤ m.hdr.src (pos n) && rest

pub count_from-accepted :
    (j : ℕ) (tag : ℤ) (ms : List Message)
    → length (accepted (pos j) tag ms) ≡ count_from j (accepted any_source tag ms)
unfolding accepted count_from matches
count_from-accepted j tag [] = refl
count_from-accepted j tag (m ∷ ms) = ground (arith, count_from-accepted j tag ms)

pub count_from-prefix :
    (j : ℕ) (ms more : List Message) → count_from j ms ≤ count_from j (ms ++ more)
unfolding count_from
count_from-prefix j [] more = omega arith
count_from-prefix j (m ∷ ms) more = ground (arith, count_from-prefix j ms more)

pub from_ranks-prefix :
    (n : ℕ) (ms more : List Message) → from_ranks n (ms ++ more) ≡ true → from_ranks n ms ≡ true
unfolding from_ranks
from_ranks-prefix n [] more h = refl
from_ranks-prefix n (m ∷ ms) more h = ground (arith, from_ranks-prefix n ms more)

abbrev pub total : ℕ → (ℕ → ℕ) → ℕ
total = census (λ k. k)

-- One more at `i`.
abbrev bump : ℕ → (ℕ → ℕ) → ℕ → ℕ
bump i f j = if i == j then suc (f j) else f j

total-bump_ge : (n i : ℕ) (f : ℕ → ℕ) → n ≤ i → total n (bump i f) ≡ total n f
unfolding census
total-bump_ge zero i f h = refl
total-bump_ge (suc n) i f h = ground (arith, total-bump_ge n i f)

total-bump : (n i : ℕ) (f : ℕ → ℕ) → i < n → total n (bump i f) ≡ suc (total n f)
unfolding census
total-bump zero i f h = absurd (omega arith)
total-bump (suc n) i f h = elim (dec_lt i n) [
  | yes below ↦ ground (arith, total-bump n i f below)
  | no last ↦ ground (arith, total-bump_ge n i f)
]

total-equal : (n : ℕ) (f g : ℕ → ℕ) → ((j : ℕ) → f j ≡ g j) → total n f ≡ total n g
unfolding census
total-equal zero f g h = refl
total-equal (suc n) f g h = omega (arith, total-equal n f g h, h n)

from_ranks-cons :
    (n : ℕ) (m : Message) (ms : List Message)
    → from_ranks n (m ∷ ms) ≡ true
    → (pos_part m.hdr.src < n) × (from_ranks n ms ≡ true)
unfolding from_ranks
from_ranks-cons n m ms h = ground arith

count_from-bump :
    (n : ℕ) (m : Message) (ms : List Message)
    → from_ranks n (m ∷ ms) ≡ true
    → (j : ℕ) → count_from j (m ∷ ms) ≡ bump (pos_part m.hdr.src) (λ i. count_from i ms) j
unfolding from_ranks count_from
count_from-bump n m ms h j = ground arith

-- The messages from ranks below `n`, counted rank by rank.
pub total-count_from :
    (n : ℕ) (ms : List Message)
    → from_ranks n ms ≡ true
    → total n (λ j. count_from j ms) ≡ length ms
total-count_from n [] h =
    census-none (λ k. k) n (λ j. count_from j []) (λ i p. unfold count_from in refl)
total-count_from n (m ∷ ms) h =
    let (low, rest) = from_ranks-cons n m ms h in
    total-equal n (λ j. count_from j (m ∷ ms)) (bump (pos_part m.hdr.src) (λ j. count_from j ms))
      (count_from-bump n m ms h)
    ∙ total-bump n (pos_part m.hdr.src) (λ j. count_from j ms) low
    ∙ ap suc (total-count_from n ms rest)

total-le : (n : ℕ) (f : ℕ → ℕ) → ((j : ℕ) → j < n → f j ≤ 1) → total n f ≤ n
unfolding census
total-le zero f h = omega arith
total-le (suc n) f h = omega (arith, total-le n f (λ j p. h j (omega arith)), h n (omega arith))

total-full :
    (n : ℕ) (f : ℕ → ℕ) → ((j : ℕ) → j < n → f j ≤ 1) → n ≤ total n f → (j : ℕ) → j < n → f j ≡ 1
unfolding census
total-full zero f h full j p = absurd (omega arith)
total-full (suc n) f h full j p =
    let below = total-le n f (λ i q. h i (omega arith)) in
    let last = h n (omega arith) in
    elim (dec_lt j n) [
      | yes less ↦ total-full n f (λ i q. h i (omega arith)) (omega arith) j less
      | no same ↦ let e : n ≡ j = omega arith in subst (λ i. f i ≡ 1) e (omega arith)
    ]

-- If rank 0 sends nothing, each rank below `n` at most one message, and there are `n - 1` of them, then
-- each rank but 0 sends one.
pub everyone :
    (n : ℕ) (ms : List Message)
    → from_ranks n ms ≡ true
    → suc (length ms) ≡ n
    → count_from 0 ms ≡ 0
    → ((j : ℕ) → j < n → count_from j ms ≤ 1)
    → (j : ℕ) → 0 < j
    → j < n
    → 0 < count_from j ms
everyone n ms known many own once j other lt =
    let f : ℕ → ℕ = λ i. count_from i ms in
    let full = total-bump n 0 f (omega arith) in
    let one =
      total-full n (bump 0 f) (λ i p. bounded i (once i p))
        (omega (arith, full, total-count_from n ms known)) j lt in
    ground (arith, one)
  where
    bounded : (i : ℕ) → count_from i ms ≤ 1 → bump 0 (λ k. count_from k ms) i ≤ 1
    bounded i h = ground (arith, own)
