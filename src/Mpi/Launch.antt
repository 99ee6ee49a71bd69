-- ===== src/Mpi/Launch.antt =====
-- `parse_rank_args`, `int_to_str` and `MPI_Launch` of src/mpi.c. A C string is the list of its bytes
-- before the NUL; `argv` is a list of such, so `argc` is its length.
pub mod RoundTrip
pub mod Started
use neoos_libneoos.Base.{
  ℕ, zero, suc, ◌+◌, ◌-◌, ◌*◌, ◌/◌, ◌%◌, ◌^◌, ◌==◌, Bool, true, false, ◌||◌, Option, none, some,
  List, [], ◌∷◌, ◌++◌, if◌then◌else◌, ltb, leb,
}
use neoos_libneoos.Base.Int.{pos_part, ℤ, pos, ltb_ℤ}
use neoos_libneoos.Mpi.Defs.{mpi_max_ranks, mpi_success, mpi_err_other, mpi_err_intern}
use mathlib.Core.List.{reverse}

-- A loop over the digits of an argument: the number, MPI_ERR_OTHER for a byte that is no digit, or an
-- `int` that overflows.
pub data Parsed : Type 0 where
  number : ℕ → Parsed
  bad : Parsed
  overflow : Parsed

-- The loop over `argv[1]` and the one over `argv[2]`, which are the same.
unfoldable pub parse_digits : List ℕ → ℕ → Parsed
parse_digits [] r = number r
parse_digits (c ∷ cs) r =
    let next = r * 10 + (c - b'0') in
    let rest = parse_digits cs next in
    if ltb c b'0' || ltb b'9' c then bad else if leb (2 ^ 31) next then overflow else rest

pub data Ranked : Type 0 where
  ranked : (rank size : ℕ) → Ranked
  refused : Ranked
  undefined : Ranked

-- The end of `parse_rank_args`: `r` cannot be negative.
unfoldable pub check_ranks : ℕ → ℕ → Ranked
check_ranks r n = if ltb n 1 || ltb mpi_max_ranks n || leb n r then refused else ranked r n

-- `parse_rank_args`: `mpi_rank` and `mpi_size`, or MPI_ERR_OTHER.
unfoldable pub parse_rank_args : List (List ℕ) → Ranked
unfolding parse_digits check_ranks
parse_rank_args (prog ∷ rank ∷ size ∷ rest) = elim (parse_digits rank 0) [
  | bad ↦ refused
  | overflow ↦ undefined
  | number r ↦ elim (parse_digits size 0) [
    | bad ↦ refused
    | overflow ↦ undefined
    | number n ↦ check_ranks r n
  ]
]
parse_rank_args _ = refused

-- The loop of `int_to_str` that fills `tmp`, last digit first; the fuel is the room in `tmp`.
unfoldable pub tmp_digits : ℕ → ℕ → List ℕ
tmp_digits zero v = []
tmp_digits (suc k) v =
    let rest = tmp_digits k (v / 10) in if v == 0 then [] else (b'0' + v % 10) ∷ rest

-- `int_to_str`, for a value that is not negative.
unfoldable pub int_to_str : ℕ → List ℕ
int_to_str v = if v == 0 then b'0' ∷ [] else reverse (tmp_digits 12 v)

-- The `argv` of the process of rank `r`.
abbrev pub launch_argv : List ℕ → ℕ → ℕ → List (List ℕ)
launch_argv path size r = path ∷ int_to_str r ∷ int_to_str size ∷ []

-- What `MPI_Launch` did: its code, the argument vectors it spawned, and the pids it stored.
pub record Launched : Type 0 where
  pub code : ℕ
  pub spawned : List (List (List ℕ))
  pub pids : List ℤ

-- The loop of `MPI_Launch`: `k` ranks are left, from `r` on. `spawnv` is the kernel's answer.
unfoldable pub launch_loop : (List (List ℕ) → ℤ) → List ℕ → ℕ → ℕ → ℕ → Launched
launch_loop spawnv path size zero r = record { code = mpi_success; spawned = []; pids = [] }
launch_loop spawnv path size (suc k) r =
    let argv = launch_argv path size r in
    let rest = launch_loop spawnv path size k (r + 1) in
    if ltb_ℤ (spawnv argv) (pos 0)
    then record { code = mpi_err_intern; spawned = argv ∷ []; pids = [] }
    else record { code = rest.code; spawned = argv ∷ rest.spawned; pids = spawnv argv ∷ rest.pids }

-- `MPI_Launch`
unfoldable pub mpi_launch : (List (List ℕ) → ℤ) → List ℕ → ℤ → Launched
unfolding launch_loop
mpi_launch spawnv path size =
    if ltb_ℤ size (pos 1) || ltb_ℤ (pos mpi_max_ranks) size
    then record { code = mpi_err_other; spawned = []; pids = [] }
    else launch_loop spawnv path (pos_part size) (pos_part size) 0
