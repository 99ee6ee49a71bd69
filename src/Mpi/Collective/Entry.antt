-- ===== src/Mpi/Collective/Entry.antt =====
-- The tags of `MPI_Barrier` of src/mpi.c, and what it does once its arguments have passed.
use neoos_libneoos.Mpi.Defs.{mpi_comm_world}
use neoos_libneoos.Mpi.Send.Tags.{coll_tag-pos}
use neoos_libneoos.Mpi.State.{Mpi}
use neoos_libneoos.Mpi.Send.{coll_barrier_out, coll_barrier_in, coll_tag}
use neoos_libneoos.Base.{
  ℕ, ◌+◌, ◌-◌, ◌%◌, ◌^◌, ◌<◌, ◌≡◌, ◌≢◌, refl, ap, arith, true, not, pass, enter,
}
use neoos_libneoos.Base.Int.{ℤ, pos, pos_part, eqb_ℤ, IsInt}
use neoos_libneoos.Mpi.Collective.{mpi_barrier, next_seq, barrier_root, barrier_other}

-- The tags of the barrier that ranks enter with `coll_seq` at `seq`.
abbrev pub token_tag : ℕ → ℤ
token_tag seq = coll_tag coll_barrier_in ((seq + 1) % 2 ^ 32)

abbrev pub release_tag : ℕ → ℤ
release_tag seq = coll_tag coll_barrier_out ((seq + 1) % 2 ^ 32)

pub tags_IsInt :
    (seq : ℕ) → IsInt (token_tag seq) × IsInt (release_tag seq) × (release_tag seq ≢ token_tag seq)
tags_IsInt seq =
    rw
      (
        coll_tag-pos coll_barrier_in ((seq + 1) % 2 ^ 32) (omega arith),
        coll_tag-pos coll_barrier_out ((seq + 1) % 2 ^ 32) (omega arith),
      )
      (omega arith, omega arith, λ e. let e' = ap pos_part e in omega arith)

-- What `MPI_Barrier` does once its arguments have passed.
pub barrier-at_root :
    (n seq : ℕ) (st : Mpi)
    → 1 < n
    → st.rank ≡ pos 0
    → st.size ≡ pos n
    → st.ready ≡ true
    → st.coll_seq ≡ seq
    → mpi_barrier mpi_comm_world st
      ≡ barrier_root (n - 1) (token_tag seq) (release_tag seq) mpi_comm_world (next_seq st)
unfolding mpi_barrier
barrier-at_root n seq st many rank size ready number =
    pass (not st.ready) _ (ground (arith, ready)) (
      pass (eqb_ℤ st.size (pos 1)) _ (rw size (ground arith))
        (enter (eqb_ℤ st.rank (pos 0)) _ (rw rank refl) (rw (size, number) refl)))

pub barrier-at_rank :
    (n seq j : ℕ) (st : Mpi)
    → 1 < n
    → 0 < j
    → st.rank ≡ pos j
    → st.size ≡ pos n
    → st.ready ≡ true
    → st.coll_seq ≡ seq
    → mpi_barrier mpi_comm_world st
      ≡ barrier_other (token_tag seq) (release_tag seq) mpi_comm_world (next_seq st)
unfolding mpi_barrier
barrier-at_rank n seq j st many other rank size ready number =
    pass (not st.ready) _ (ground (arith, ready)) (
      pass (eqb_ℤ st.size (pos 1)) _ (rw size (ground arith))
        (pass (eqb_ℤ st.rank (pos 0)) _ (rw rank (ground arith)) (rw number refl)))
