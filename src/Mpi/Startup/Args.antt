-- ===== src/Mpi/Startup/Args.antt =====
-- What `MPI_Init` of src/mpi.c makes of `argv`.
use neoos_libneoos.Base.{
  ℕ, zero, suc, ◌+◌, ◌-◌, ◌≤◌, ◌<◌, ◌≡◌, refl, arith, ◌&&◌, some, List, ◌∷◌, length, get_elem?, leb,
  ltb, if◌then◌else◌,
}
use neoos_libneoos.Base.Census.{put}
use neoos_libneoos.Mpi.Startup.{Argv, shift_loop, shift_args}

shift_loop_lem :
    (k i : ℕ) (v : Argv) (x : ℕ)
    → 3 ≤ i
    → shift_loop k i v x ≡ (if leb (i - 2) x && ltb x (i - 2 + k) then v (x + 2) else v x)
unfolding shift_loop
shift_loop_lem zero i v x h = ground arith
shift_loop_lem (suc k) i v x h = ground (arith, shift_loop_lem k (i + 1) (put v (i - 2) (v i)) x)

get_elem?-skip :
    (p a b : List ℕ) (rest : List (List ℕ)) (x : ℕ)
    → 0 < x
    → get_elem? (p ∷ a ∷ b ∷ rest) (x + 2) ≡ get_elem? (p ∷ rest) x
get_elem?-skip p a b rest zero h = absurd (omega arith)
get_elem?-skip p a b rest (suc x) h =
    let e : suc x + 2 ≡ suc (suc (suc x)) = omega arith in rw e refl

-- The vector loses its elements 1 and 2, up to and with the null pointer at its end.
pub shift_args_lem :
    (p a b : List ℕ) (rest : List (List ℕ)) (x : ℕ)
    → x ≤ length (p ∷ rest)
    → shift_args (length (p ∷ a ∷ b ∷ rest)) (get_elem? (p ∷ a ∷ b ∷ rest)) x
      ≡ get_elem? (p ∷ rest) x
unfolding shift_args
shift_args_lem p a b rest zero h = ground (
  arith,
  shift_loop_lem (length (p ∷ a ∷ b ∷ rest) - 2) 3 (put (get_elem? (p ∷ a ∷ b ∷ rest)) 1 (some p))
      0,
)
shift_args_lem p a b rest (suc x) h = ground (
  arith,
  shift_loop_lem (length (p ∷ a ∷ b ∷ rest) - 2) 3 (put (get_elem? (p ∷ a ∷ b ∷ rest)) 1 (some p))
      (suc x),
  get_elem?-skip p a b rest (suc x),
)
