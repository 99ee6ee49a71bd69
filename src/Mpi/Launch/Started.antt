-- ===== src/Mpi/Launch/Started.antt =====
-- How `MPI_Launch` of src/mpi.c ends, and what the ranks that it starts read from their arguments.
use neoos_libneoos.Mpi.Launch.RoundTrip.{parse_rank_args-launch_argv, argvs}
use neoos_libneoos.Mpi.Defs.{mpi_err_other, mpi_err_intern, mpi_success, mpi_max_ranks}
use neoos_libneoos.Mpi.Launch.{
  mpi_launch, ranked, parse_rank_args, launch_argv, launch_loop, Launched,
}
use neoos_libneoos.Base.{
  false, ◌⊎◌, some-injective, ℕ, zero, suc, ◌+◌, ◌≤◌, ◌<◌, ◌≡◌, refl, sym, ◌∙◌, ap, subst, arith,
  true, ◌||◌, some, List, [], ◌∷◌, map, get_elem?, Bool-cases, inl, inr,
}
use neoos_libneoos.Base.Int.{negsuc, ℤ, pos, ltb_ℤ}

module _ (spawnv : List (List ℕ) → ℤ) (path : List ℕ) (size : ℕ) where
  -- Either all `k` ranks from `r` on were started, or all up to one, whose `spawnv` failed and which is the
  -- last that was tried; the pids of those that were started are stored.
  pub data LaunchEnd (k r : ℕ) (l : Launched) : Type 0 where
    all_started :
        l.code ≡ mpi_success
        → ((j : ℕ) → j < k → ltb_ℤ (spawnv (launch_argv path size (r + j))) (pos 0) ≡ false)
        → l.spawned ≡ argvs path size k r
        → l.pids ≡ map spawnv l.spawned
        → LaunchEnd k r l
    one_failed :
        (i : ℕ)
        → i < k
        → l.code ≡ mpi_err_intern
        → ((j : ℕ) → j < i → ltb_ℤ (spawnv (launch_argv path size (r + j))) (pos 0) ≡ false)
        → l.spawned ≡ argvs path size (suc i) r
        → ltb_ℤ (spawnv (launch_argv path size (r + i))) (pos 0) ≡ true
        → l.pids ≡ map spawnv (argvs path size i r)
        → LaunchEnd k r l

  launch_loop-LaunchEnd : (k r : ℕ) → LaunchEnd k r (launch_loop spawnv path size k r)
  unfolding launch_loop
  launch_loop-LaunchEnd zero r = all_started refl (λ j h. absurd (omega arith)) refl refl
  launch_loop-LaunchEnd (suc k) r =
      elim (Bool-cases (ltb_ℤ (spawnv (launch_argv path size r)) (pos 0))) [
        | inl bad ↦ rw bad (
            one_failed 0 (omega arith) refl (λ j h. absurd (omega arith)) refl
              (rw (plus_zero r) bad) refl)
        | inr good ↦ rw good (from good (launch_loop-LaunchEnd k (r + 1)))
      ]
    where
      plus_zero : (r : ℕ) → r + 0 ≡ r
      plus_zero r = omega arith

      rest : Launched
      rest = launch_loop spawnv path size k (r + 1)

      Starts : ℕ → Type 0
      Starts j = ltb_ℤ (spawnv (launch_argv path size j)) (pos 0) ≡ false

      -- The first one started, and those behind it.
      earlier :
          (m : ℕ)
          → Starts r
          → ((j : ℕ) → j < m → Starts (r + 1 + j))
          → (j : ℕ) → j < suc m
          → Starts (r + j)
      earlier m good later zero h = subst Starts (omega arith) good
      earlier m good later (suc j) h = subst Starts (omega arith) (later j (omega arith))

      from :
          Starts r
          → LaunchEnd k (r + 1) rest
          → LaunchEnd (suc k) r (record {
            code = rest.code;
            spawned = launch_argv path size r ∷ rest.spawned;
            pids = spawnv (launch_argv path size r) ∷ rest.pids;
          })
      from good (all_started code started spawned pids) =
          all_started code (earlier k good started) (ap (λ l. launch_argv path size r ∷ l) spawned)
            (ap (λ l. spawnv (launch_argv path size r) ∷ l) pids)
      from good (one_failed i below code started spawned failed pids) =
          one_failed (suc i) (omega arith) code (earlier i good started)
            (ap (λ l. launch_argv path size r ∷ l) spawned)
            (subst (λ j. ltb_ℤ (spawnv (launch_argv path size j)) (pos 0) ≡ true) (omega arith)
              failed)
            (ap (λ l. spawnv (launch_argv path size r) ∷ l) pids)

  -- The vectors, one after the other.
  argvs-ranked :
      (k r j : ℕ) (argv : List (List ℕ))
      → r + k ≤ size
      → size ≤ mpi_max_ranks
      → get_elem? (argvs path size k r) j ≡ some argv
      → parse_rank_args argv ≡ ranked (r + j) size
  argvs-ranked zero r j argv h most e = absurd (cc)
  argvs-ranked (suc k) r zero argv h most e =
      ap parse_rank_args (sym (some-injective (launch_argv path size r) argv e))
      ∙ parse_rank_args-launch_argv path [] r size (omega arith) most
      ∙ ap (λ i. ranked i size) (omega arith)
  argvs-ranked (suc k) r (suc j) argv h most e =
      argvs-ranked k (r + 1) j argv (omega arith) most e ∙ ap (λ i. ranked i size) (omega arith)

  spawned-ranked :
      (l : Launched)
      → size ≤ mpi_max_ranks
      → LaunchEnd size 0 l
      → (j : ℕ) (argv : List (List ℕ)) → get_elem? l.spawned j ≡ some argv
      → parse_rank_args argv ≡ ranked j size
  spawned-ranked l most (all_started code started spawned pids) j argv e =
      argvs-ranked size 0 j argv (omega arith) most (ap (λ v. get_elem? v j) (sym spawned) ∙ e)
      ∙ ap (λ k. ranked k size) (omega arith)
  spawned-ranked l most (one_failed i below code started spawned failed pids) j argv e =
      argvs-ranked (suc i) 0 j argv (omega arith) most (ap (λ v. get_elem? v j) (sym spawned) ∙ e)
      ∙ ap (λ k. ranked k size) (omega arith)

-- How `MPI_Launch` ends.
pub data Launching (spawnv : List (List ℕ) → ℤ) (path : List ℕ) (size : ℤ) (l : Launched)
    : Type 0 where
  refused :
      (ltb_ℤ size (pos 1) ≡ true) ⊎ (ltb_ℤ (pos mpi_max_ranks) size ≡ true)
      → l ≡ record { code = mpi_err_other; spawned = []; pids = [] }
      → Launching spawnv path size l
  tried :
      (n : ℕ)
      → size ≡ pos n
      → 1 ≤ n
      → n ≤ mpi_max_ranks
      → LaunchEnd spawnv path n n 0 l
      → ((j : ℕ) (argv : List (List ℕ))
          → get_elem? l.spawned j ≡ some argv
          → parse_rank_args argv ≡ ranked j n)
      → Launching spawnv path size l

-- `MPI_Launch` refuses a size out of range, also a negative one, and starts nothing. Otherwise it spawns the
-- ranks from 0 on, and `MPI_Init` of the j-th process that it spawned reads rank j and the size from its
-- arguments; it ends with MPI_SUCCESS when every `spawnv` has succeeded, or with MPI_ERR_INTERN at the first
-- one that fails, after which it tries no other, and stores the pids of those that succeeded.
pub mpi_launch-Launching :
    (spawnv : List (List ℕ) → ℤ) (path : List ℕ) (size : ℤ)
    → Launching spawnv path size (mpi_launch spawnv path size)
unfolding mpi_launch
mpi_launch-Launching spawnv path (negsuc n) =
    let negative : ltb_ℤ (negsuc n) (pos 1) ≡ true = ground arith in
    refused (inl negative) (rw negative refl)
mpi_launch-Launching spawnv path (pos n) =
    elim (Bool-cases (ltb_ℤ (pos n) (pos 1) || ltb_ℤ (pos mpi_max_ranks) (pos n))) [
      | inl out ↦ rw out (refused (sides out) refl)
      | inr within ↦
          let most : n ≤ mpi_max_ranks = ground (arith, within) in
          let end = launch_loop-LaunchEnd spawnv path n n 0 in
          rw within (
            tried n refl (ground (arith, within)) most end
              (spawned-ranked spawnv path n (launch_loop spawnv path n n 0) most end))
    ]
  where
    sides :
        (ltb_ℤ (pos n) (pos 1) || ltb_ℤ (pos mpi_max_ranks) (pos n)) ≡ true
        → (ltb_ℤ (pos n) (pos 1) ≡ true) ⊎ (ltb_ℤ (pos mpi_max_ranks) (pos n) ≡ true)
    sides h = elim (Bool-cases (ltb_ℤ (pos n) (pos 1))) [
      | inl low ↦ inl low
      | inr high ↦ inr (ground (arith, h, high))
    ]
