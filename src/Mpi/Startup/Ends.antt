-- ===== src/Mpi/Startup/Ends.antt =====
-- How `MPI_Init` of src/mpi.c ends.
use neoos_libneoos.Base.{
  ℕ, ◌≤◌, ◌≡◌, ◌≢◌, ◌⊎◌, true, false, none, some, List, ◌∷◌, length, get_elem?,
}
use neoos_libneoos.Base.Int.{pos, minus, ltb_ℤ}
use neoos_libneoos.Mpi.Defs.{mpi_err_intern, mpi_success, mpi_err_other}
use neoos_libneoos.Mpi.State.{Mpi, Run, done, waiting, undefined, addr_for_rank}
use neoos_libneoos.Mpi.Launch.{Ranked, refused, ranked, parse_rank_args}
use neoos_libneoos.Mpi.Startup.{Net, Argv, InitEnd, rendezvous}
use neoos_libneoos.Mpi.Startup.Frame.{Same}

-- The vector that `MPI_Init` leaves: the strings `args` without the second and the third, as far as and
-- with the null pointer.
abbrev pub Shifted : List (List ℕ) → ℕ → Argv → Type 0
Shifted (p ∷ a ∷ b ∷ rest) argc v =
    (argc ≡ length (p ∷ rest)) × ((x : ℕ) → x ≤ argc → v x ≡ get_elem? (p ∷ rest) x)
Shifted _ argc v = ⊥

-- The state in which a process goes to the rendezvous.
abbrev pub ready_state : Net → ℕ → ℕ → Mpi → Mpi
ready_state net rank size st = record st {
  rank = pos rank;
  size = pos size;
  sock = net.socket;
  ready = true;
}

-- Why a call gives up with `code` once the socket is open: `bind` failed, or the rendezvous did.
abbrev pub Failure : Net → ℕ → ℕ → Mpi → ℕ → Type 0
Failure net rank size st code =
    ((net.bind (addr_for_rank (pos rank)) ≢ pos 0) × (code ≡ mpi_err_intern))
    ⊎ ((st₁ : Mpi) × (net.bind (addr_for_rank (pos rank)) ≡ pos 0)
        × (rendezvous net (ready_state net rank size st) ≡ done code st₁))

-- How `MPI_Init` ends on the strings `args`.
pub data InitOutcome (net : Net) (args : List (List ℕ)) (st : Mpi) (r : Run InitEnd) : Type 0 where
  starts :
      (rank size : ℕ) (e : InitEnd) (st' : Mpi)
      → st.ready ≡ false
      → parse_rank_args args ≡ ranked rank size
      → ltb_ℤ net.socket (pos 0) ≡ false
      → net.bind (addr_for_rank (pos rank)) ≡ pos 0
      → rendezvous net (ready_state net rank size st) ≡ done mpi_success st'
      → r ≡ done e st'
      → e.code ≡ mpi_success
      → Shifted args e.argc e.argv
      → Same (ready_state net rank size st) st'
      → InitOutcome net args st r
  refuses :
      (e : InitEnd)
      → (st.ready ≡ true) ⊎ (parse_rank_args args ≡ refused)
      → e.code ≡ mpi_err_other
      → e.closed ≡ none
      → r ≡ done e st
      → InitOutcome net args st r
  gives_up :
      (rank size : ℕ) (e : InitEnd) (st' : Mpi)
      → parse_rank_args args ≡ ranked rank size
      → e.code ≢ mpi_success
      → ((ltb_ℤ net.socket (pos 0) ≡ true) × (e.code ≡ mpi_err_intern) × (e.closed ≡ none))
        ⊎ ((ltb_ℤ net.socket (pos 0) ≡ false)
            × Failure net rank size st e.code
            × (e.closed ≡ some net.socket)
            × (st'.sock ≡ minus 1))
      → st.ready ≡ false
      → st'.ready ≡ false
      → r ≡ done e st'
      → InitOutcome net args st r
  stuck :
      (rank size : ℕ) (st' : Mpi)
      → st.ready ≡ false
      → parse_rank_args args ≡ ranked rank size
      → ltb_ℤ net.socket (pos 0) ≡ false
      → net.bind (addr_for_rank (pos rank)) ≡ pos 0
      → rendezvous net (ready_state net rank size st) ≡ waiting st'
      → r ≡ waiting st'
      → InitOutcome net args st r
  overflowed :
      st.ready ≡ false
      → parse_rank_args args ≡ Ranked.undefined
      → r ≡ undefined
      → InitOutcome net args st r
