-- ===== src/Mpi/Collective/Progress.antt =====
-- `MPI_Barrier` of src/mpi.c when its messages come in: every rank leaves.
use neoos_libneoos.Mpi.Collective.Entry.{release_tag, token_tag}
use neoos_libneoos.Mpi.Receive.Accept.{at_hand, accepted}
use neoos_libneoos.Mpi.Pending.Chain.{Cells}
use neoos_libneoos.Mpi.Defs.{any_source, Message}
use neoos_libneoos.Base.{ℕ, ◌-◌, ◌≤◌, ◌<◌, ◌≡◌, ◌==◌, List, ◌∷◌, ◌++◌, length, map, if◌then◌else◌}
use neoos_libneoos.Base.Int.{pos}
use neoos_libneoos.Mpi.State.{Mpi, Packet}
use neoos_libneoos.Mpi.Collective.Broadcast.{others, onto}
use neoos_libneoos.Mpi.Collective.Open.{Short, token_packet}

-- What has to come in at rank `j`: at rank 0 one token for each other rank, elsewhere the release.
pub record Supplied (n seq j : ℕ) (st : Mpi) (xs : Cells) : Type 0 where
  pub tokens :
      j ≡ 0
      → (ms more : List Message) × (accepted any_source (token_tag seq) (at_hand xs st)
          ≡ ms ++ more)
        × (length ms ≡ n - 1)
        × Short ms
  pub release :
      0 < j
      → (m : Message) × (later : List Message) × (accepted (pos 0) (release_tag seq) (at_hand xs st)
          ≡ m ∷ later)
        × (length m.body ≤ 1)

-- What a rank has sent when it leaves: rank 0 a release to each other rank, in the order of the ranks, and
-- every other rank one token to rank 0.
abbrev pub sent_in_barrier : ℕ → ℕ → ℕ → List ℕ → Mpi → List Packet
sent_in_barrier n seq j token st =
    if j == 0
    then onto (map (token_packet token (release_tag seq) st) (others 0 (n - 1) 1)) st.sent
    else token_packet token (token_tag seq) st 0 ∷ st.sent
