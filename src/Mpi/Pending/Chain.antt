-- ===== src/Mpi/Pending/Chain.antt =====
-- What it means that the pool of src/mpi.c holds a queue of messages.
use neoos_libneoos.Base.{
  ℕ, ◌+◌, ◌≤◌, ◌<◌, ◌≡◌, refl, Bool, true, false, ◌||◌, Option, none, some, List, [], ◌∷◌, ◌++◌, ap,
  arith, ◌==◌, length,
}
use neoos_libneoos.Base.Census.{census, census-le, census-zero}
use neoos_libneoos.Mpi.Defs.{Message}
use neoos_libneoos.Mpi.Pending.{Slot, Pool, pending_slots, empty_pool}

-- The queue: the slots in order, each with the message that it holds.
abbrev pub Cells : Type 0
Cells = List (ℕ × Message)

abbrev pub has : ℕ → Cells → Bool
has i [] = false
has i ((j, m) ∷ xs) = (i == j) || has i xs

abbrev pub messages : Cells → List Message
messages [] = []
messages ((j, m) ∷ xs) = m ∷ messages xs

-- From `c` the `next` pointers lead through the slots of the cells to a null pointer.
abbrev pub Chain : (ℕ → Slot) → Option ℕ → Cells → Type 0
Chain slot c [] = c ≡ none
Chain slot c ((i, m) ∷ xs) = (c ≡ some i) × ((slot i).msg ≡ m) × Chain slot (slot i).next xs

abbrev pub Distinct : Cells → Type 0
Distinct [] = Unit
Distinct ((i, m) ∷ xs) = (has i xs ≡ false) × Distinct xs

abbrev pub flag : Bool → ℕ
flag true = 1
flag false = 0

pub flag-le : (b : Bool) → flag b ≤ 1
flag-le true = omega arith
flag-le false = omega arith

-- The pool holds the queue `xs`; the slots in use are those of the queue, and `held`, if any, which
-- is in the hands of the receive that runs.
pub record IsHolding (held : Option ℕ) (p : Pool) (xs : Cells) : Type 0 where
  pub chain : Chain p.slot p.head xs
  pub distinct : Distinct xs
  pub used : (i : ℕ) → has i xs ≡ true → (p.used i ≡ true) × (i < pending_slots)
  pub apart : (i : ℕ) → held ≡ some i → (has i xs ≡ false) × (p.used i ≡ true) × (i < pending_slots)
  pub counted : census flag pending_slots p.used ≡ length xs + elim held [ none ↦ 0 | some _ ↦ 1 ]

abbrev pub IsQueue : Pool → Cells → Type 0
IsQueue = IsHolding none

pub empty-IsQueue : (m : Message) → IsQueue (empty_pool m) []
empty-IsQueue m = record {
  chain = refl;
  distinct = tt;
  used = λ i h. cc;
  apart = λ i h. cc;
  counted = census-zero flag pending_slots false refl;
}

-- The queue never holds more than PENDING_SLOTS messages.
pub length-le :
    {held : Option ℕ} {p : Pool} {xs : Cells} → IsHolding held p xs → length xs ≤ pending_slots
length-le {p} q = omega (arith, q.counted, census-le flag flag-le pending_slots p.used)

pub has-append : (i : ℕ) (xs ys : Cells) → has i (xs ++ ys) ≡ (has i xs || has i ys)
has-append i [] ys = refl
has-append i ((j, m) ∷ xs) ys = ground (arith, has-append i xs ys)

pub messages-append : (xs ys : Cells) → messages (xs ++ ys) ≡ messages xs ++ messages ys
messages-append [] ys = refl
messages-append ((j, m) ∷ xs) ys = ap (λ l. m ∷ l) (messages-append xs ys)

-- A chain depends only on the slots of its cells.
pub Chain-frame :
    (f g : ℕ → Slot) (c : Option ℕ) (xs : Cells)
    → ((i : ℕ) → has i xs ≡ true → g i ≡ f i)
    → Chain f c xs
    → Chain g c xs
Chain-frame f g c [] same h = h
Chain-frame f g c ((i, m) ∷ xs) same (e, em, h) =
    let at : g i ≡ f i = same i (ground arith) in
    (e, rw at em, rw at (Chain-frame f g (f i).next xs (λ j hj. same j (ground arith)) h))
