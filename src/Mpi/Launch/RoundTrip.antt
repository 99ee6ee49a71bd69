-- ===== src/Mpi/Launch/RoundTrip.antt =====
-- What `MPI_Launch` of src/mpi.c writes into the arguments, `parse_rank_args` reads back.
use neoos_libneoos.Mpi.Defs.{mpi_max_ranks}
use neoos_libneoos.Base.{
  ◌∙◌, ap, ℕ, zero, suc, ◌+◌, ◌-◌, ◌*◌, ◌/◌, ◌%◌, ◌^◌, ◌≤◌, ◌<◌, ◌==◌, ◌≡◌, refl, List, [], ◌∷◌,
  ◌++◌, arith, Bool-cases, inl, inr,
}
use neoos_libneoos.Mpi.Launch.{
  number, parse_digits, ranked, parse_rank_args, tmp_digits, int_to_str, launch_argv,
}
use native.Mathlib.Nat.{pow-suc}
use mathlib.Core.List.{reverse, reverse-append}

parse_digits-append :
    (xs ys : List ℕ) (r q : ℕ)
    → parse_digits xs r ≡ number q
    → parse_digits (xs ++ ys) r ≡ parse_digits ys q
unfolding parse_digits
parse_digits-append [] ys r q e = ground arith
parse_digits-append (c ∷ xs) ys r q e =
    ground (arith, parse_digits-append xs ys (r * 10 + (c - b'0')) q)

parse_digits-digit : (v : ℕ) → v < 2 ^ 31 → parse_digits ((b'0' + v % 10) ∷ []) (v / 10) ≡ number v
unfolding parse_digits
parse_digits-digit v h = ground arith

parse_digits-nil : parse_digits [] 0 ≡ number 0
unfolding parse_digits
parse_digits-nil = refl

parse_digits-tmp :
    (k v : ℕ) → v < 10 ^ k → v < 2 ^ 31 → parse_digits (reverse (tmp_digits k v)) 0 ≡ number v
unfolding tmp_digits
parse_digits-tmp zero v h h' = parse_digits-nil ∙ ap number (omega arith)
parse_digits-tmp (suc k) v h h' = elim (Bool-cases (v == 0)) [
  | inl e ↦ rw e (parse_digits-nil ∙ ap number (ground arith))
  | inr e ↦
      let h₂ : v < 10 ^ k * 10 = rw pow-suc at h in
      let ih = parse_digits-tmp k (v / 10) (omega arith) (omega arith) in
      rw (e, reverse-append ((b'0' + v % 10) ∷ []) (tmp_digits k (v / 10)))
        (parse_digits-append (reverse (tmp_digits k (v / 10))) ((b'0' + v % 10) ∷ []) 0 (v / 10) ih
          ∙ parse_digits-digit v h')
]

-- `parse_rank_args` reads every `int` that `int_to_str` writes.
pub parse_digits-int_to_str : (v : ℕ) → v < 2 ^ 31 → parse_digits (int_to_str v) 0 ≡ number v
unfolding int_to_str
parse_digits-int_to_str v h = elim (Bool-cases (v == 0)) [
  | inl e ↦ rw e (zero_digit v (ground arith))
  | inr e ↦ rw e (parse_digits-tmp 12 v (omega arith) h)
]
  where
    zero_digit : (v : ℕ) → v ≡ 0 → parse_digits (b'0' ∷ []) 0 ≡ number v
    zero_digit v e = rw e (unfold parse_digits in refl)

-- Whatever rank and size `MPI_Launch` puts into an argument vector, `parse_rank_args` takes out again,
-- also with further arguments behind them.
pub parse_rank_args-launch_argv :
    (path : List ℕ) (rest : List (List ℕ)) (r n : ℕ)
    → r < n
    → n ≤ mpi_max_ranks
    → parse_rank_args (path ∷ int_to_str r ∷ int_to_str n ∷ rest) ≡ ranked r n
unfolding parse_rank_args
parse_rank_args-launch_argv path rest r n h h' =
    rw (parse_digits-int_to_str r (omega arith), parse_rank_args)
      (rw (parse_digits-int_to_str n (omega arith), parse_rank_args) (ground arith))

-- The argument vectors of the ranks from `r` on.
abbrev pub argvs : List ℕ → ℕ → ℕ → ℕ → List (List (List ℕ))
argvs path size zero r = []
argvs path size (suc k) r = launch_argv path size r ∷ argvs path size k (r + 1)
