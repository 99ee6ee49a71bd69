-- ===== src/Mpi/Reduce.antt =====
-- `reduce_apply` of src/mpi.c. Its three cases run one loop over elements of `int`, `long` and
-- `double`; the operations on elements are the C compiler's, and enter as a record.
use mathlib.Core.Option
use neoos_libneoos.Base.{
  refl, inr, inl, Bool-cases, arith, length, ◌≡◌, ◌==◌, ℕ, zero, suc, Bool, Option, none, some,
  List, [], ◌∷◌, if◌then◌else◌, ◌||◌,
}
use neoos_libneoos.Base.Int.{negsuc, ℤ, pos, eqb_ℤ}
use neoos_libneoos.Mpi.Defs.{
  mpi_sum, mpi_prod, mpi_max, mpi_min, mpi_int, mpi_long, mpi_double, mpi_success, mpi_err_op,
  mpi_err_type,
}

-- `+`, `*` and `<` of an element type.
pub record Arithmetic (A : Type 0) : Type 0 where
  pub add : A → A → A
  pub mul : A → A → A
  pub less : A → A → Bool

module _ {A : Type 0} (ar : Arithmetic A) where
  -- One round of the loop: the new `d[i]`, or no result for an operation that is none of the four.
  unfoldable pub combine : ℤ → A → A → Option A
  combine op d s =
      if eqb_ℤ op mpi_sum
      then some (ar.add d s)
      else if eqb_ℤ op mpi_prod
      then some (ar.mul d s)
      else if eqb_ℤ op mpi_max
      then some (if ar.less d s then s else d)
      else if eqb_ℤ op mpi_min
      then some (if ar.less s d then s else d)
      else none

  -- The loop over `count` elements; `d` and `s` hold at least as many.
  unfoldable pub reduce_loop : ℤ → ℕ → List A → List A → ℕ × List A
  reduce_loop op zero d s = (mpi_success, d)
  reduce_loop op (suc n) (x ∷ d) (y ∷ s) =
      let rest = reduce_loop op n d s in
      elim (combine op x y) [ none ↦ (mpi_err_op, x ∷ d) | some z ↦ (rest.0, z ∷ rest.1) ]
  reduce_loop op (suc n) d s = (mpi_success, d)

-- Which of the three cases `reduce_apply` takes; the types without arithmetic are refused.
unfoldable pub reducible : ℤ → Bool
reducible type = eqb_ℤ type mpi_int || eqb_ℤ type mpi_long || eqb_ℤ type mpi_double

-- `reduce_apply`
unfoldable pub reduce_apply : {A : Type 0} → Arithmetic A → List A → List A → ℕ → ℤ → ℤ → ℕ × List A
unfolding reduce_loop combine reducible
reduce_apply ar dst src count type op =
    if reducible type then reduce_loop ar op count dst src else (mpi_err_type, dst)

-- What the loop computes: the operation on each pair of elements.
abbrev pub combined : {A : Type 0} → (A → A → A) → List A → List A → List A
combined f [] s = []
combined f (x ∷ d) [] = []
combined f (x ∷ d) (y ∷ s) = f x y ∷ combined f d s

-- The four operations, by the numbers of include/mpi.h.
abbrev pub operation : {A : Type 0} → Arithmetic A → ℤ → Option (A → A → A)
operation ar (pos n) =
    if n == 0
    then some ar.add
    else if n == 1
    then some ar.mul
    else if n == 2
    then some (λ d s. if ar.less d s then s else d)
    else if n == 3
    then some (λ d s. if ar.less s d then s else d)
    else none
operation ar (negsuc n) = none

combine-operation :
    {A : Type 0} (ar : Arithmetic A) (op : ℤ) (x y : A)
    → combine ar op x y ≡ Option.map (λ (f : A → A → A). f x y) (operation ar op)
unfolding combine
combine-operation ar (pos n) x y = ground arith
combine-operation ar (negsuc n) x y = ground arith

reduce_loop-lem :
    {A : Type 0} (ar : Arithmetic A) (op : ℤ) (o : Option (A → A → A))
    → operation ar op ≡ o
    → (d s : List A) → length d ≡ length s
    → reduce_loop ar op (length d) d s ≡ elim o [
      | none ↦ ((if length d == 0 then mpi_success else mpi_err_op), d)
      | some f ↦ (mpi_success, combined f d s)
    ]
unfolding reduce_loop
reduce_loop-lem ar op none h [] s e = refl
reduce_loop-lem ar op (some f) h [] s e = refl
reduce_loop-lem ar op o h (x ∷ d) [] e = absurd (omega arith)
reduce_loop-lem ar op none h (x ∷ d) (y ∷ s) e =
    rw (combine-operation ar op x y, h, reduce_loop) (ground arith)
reduce_loop-lem ar op (some f) h (x ∷ d) (y ∷ s) e =
    rw
      (
        combine-operation ar op x y,
        h,
        reduce_loop,
        reduce_loop-lem ar op (some f) h d s (omega arith),
      )
      refl

-- On two buffers of `count` elements each, `reduce_apply` replaces every element by the operation on
-- it and its partner, for the types with arithmetic and the four operations; it refuses the other
-- types, and with an element at hand the other operations, and then leaves the buffer alone.
pub reduce_apply-combined :
    {A : Type 0} (ar : Arithmetic A) (d s : List A) (type op : ℤ)
    → length d ≡ length s
    → reduce_apply ar d s (length d) type op ≡ (
        if reducible type
        then elim (operation ar op) [
          | none ↦ ((if length d == 0 then mpi_success else mpi_err_op), d)
          | some f ↦ (mpi_success, combined f d s)
        ]
        else (mpi_err_type, d))
unfolding reduce_apply
reduce_apply-combined ar d s type op e = elim (Bool-cases (reducible type)) [
  | inl h ↦ rw (h, reduce_apply) (reduce_loop-lem ar op (operation ar op) refl d s e)
  | inr h ↦ rw (h, reduce_apply)
]
