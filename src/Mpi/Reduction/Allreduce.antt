-- ===== src/Mpi/Reduction/Allreduce.antt =====
-- `MPI_Allreduce` of src/mpi.c at rank 0, where the reduction and the broadcast meet.
use neoos_libneoos.Mpi.Collective.{next_seq}
use neoos_libneoos.Mpi.Send.{coll_reduce, coll_tag}
use neoos_libneoos.Mpi.Receive.Accept.{at_hand, accepted}
use neoos_libneoos.Mpi.Pending.{pending_slots}
use neoos_libneoos.Mpi.Receive.Match.{incoming, NoError}
use neoos_libneoos.Mpi.Reduction.Root.{mpi_reduce-folded, IsRoot}
use neoos_libneoos.Mpi.Pending.Chain.{IsQueue, Cells}
use neoos_libneoos.Mpi.Reduction.Fold.{Sized, IsFormat, folded}
use neoos_libneoos.Mpi.Defs.{mpi_success, any_source, mpi_max_message, Message, mpi_comm_world}
use neoos_libneoos.Mpi.Reduction.{mpi_reduce, mpi_allreduce, Format}
use neoos_libneoos.Mpi.Collective.Broadcast.{
  others, mpi_bcast-others, IsCastable, onto, cast_packet,
}
use neoos_libneoos.Mpi.Reduce.{operation, reducible, Arithmetic}
use neoos_libneoos.Mpi.State.{bind_done, done, Packet, Mpi}
use neoos_libneoos.Base.{
  Bool, Bool, ℕ, ◌+◌, ◌-◌, ◌*◌, ◌%◌, ◌^◌, ◌≤◌, ◌<◌, ◌≡◌, refl, ◌∙◌, ap, arith, true, some, List,
  map, ◌++◌, length, take, drop,
}
use neoos_libneoos.Mpi.Pending.{pending_slots}
use neoos_libneoos.Base.Int.{ℤ, pos}

-- The packets of a broadcast are the same for processes of the same rank.
cast_packets :
    (buf : List ℕ) (count type : ℤ) (esz n r seq : ℕ) (st st' : Mpi) (l : List ℕ)
    → st'.rank ≡ st.rank
    → map (cast_packet buf count type mpi_comm_world esz n r seq st') l
      ≡ map (cast_packet buf count type mpi_comm_world esz n r seq st) l
cast_packets buf count type esz n r seq st st' l h = rw h refl

module _ {A : Type 0} (ar : Arithmetic A) (fmt : Format A) (f : A → A → A) where
  -- What rank 0 gives to all ranks.
  abbrev pub reduced : List ℕ → List ℕ → ℕ → List Message → List ℕ
  reduced sendbuf recvbuf n ms =
      fmt.store (folded ar fmt f (fmt.load (take n sendbuf)) ms) ++ drop n recvbuf

  -- `MPI_Allreduce` at rank 0, in a world of several ranks and where the kernel takes datagrams, under the
  -- conditions of a reduction that succeeds: it returns MPI_SUCCESS, its `recvbuf` holds the elements of
  -- all ranks combined in the order in which they came, and that same buffer has been sent to every other
  -- rank once, in the order of the ranks, under the tag of the second of the two collectives; nothing else
  -- was sent, and no message is dropped.
  pub mpi_allreduce-folded :
      (sendbuf recvbuf : List ℕ) (c : ℕ) (type op : ℤ) (ranks esz : ℕ) (st : Mpi) (xs : Cells)
      (ms more : List Message)
      → IsRoot st ranks 0 type esz
      → 1 < ranks
      → ((sent : List Packet) (p : Packet) → st.takes sent p ≡ true)
      → IsFormat fmt c (c * esz)
      → reducible type ≡ true
      → operation ar op ≡ some f
      → c * esz ≤ mpi_max_message
      → c * esz ≤ length sendbuf
      → IsQueue st.pool xs
      → NoError st.inbox
      → length xs + length (incoming st.inbox) ≤ pending_slots
      → accepted any_source (coll_tag coll_reduce (next_seq st).coll_seq) (at_hand xs st)
        ≡ ms ++ more
      → length ms ≡ ranks - 1
      → Sized (c * esz) ms
      → (st' : Mpi) × (mpi_allreduce ar fmt sendbuf recvbuf (pos c) type op mpi_comm_world st
          ≡ done (mpi_success, reduced sendbuf recvbuf (c * esz) ms) st')
        × (st'.sent
            ≡ onto
                (map
                  (cast_packet
                    (reduced sendbuf recvbuf (c * esz) ms)
                    (pos c)
                    type
                    mpi_comm_world
                    esz
                    ranks
                    0
                    (((st.coll_seq + 1) % 2 ^ 32 + 1) % 2 ^ 32)
                    st)
                  (others 0 ranks 0))
                st.sent)
        × (st'.dropped ≡ st.dropped)
  unfolding mpi_allreduce
  mpi_allreduce-folded sendbuf recvbuf c type op ranks esz st xs ms more ok several taken format
        summable known fits long q quiet room here all sized =
      let result = reduced sendbuf recvbuf (c * esz) ms in
      let (st₁, run, dropped, same) =
        mpi_reduce-folded ar fmt f sendbuf recvbuf c type op ranks 0 esz st xs ms more ok format
          summable known fits long q quiet room here all sized in
      let castable : IsCastable st₁ ranks (pos c) type mpi_comm_world esz = record {
        world = refl;
        ready = same.ready ∙ ok.ready;
        size = same.size ∙ ok.size;
        count_low = ground arith;
        sized = ok.sized;
        fits = fits;
        taken =
            λ sent p. ap (λ (t : List Packet → Packet → Bool). t sent p) same.takes ∙ taken sent p;
      } in
      let cast =
        mpi_bcast-others result (pos c) type mpi_comm_world esz ranks 0 st₁ castable several
          (omega arith) (same.rank ∙ ok.rank) in
      (
        record (next_seq st₁) {
          sent =
              onto
                (map
                  (cast_packet result (pos c) type mpi_comm_world esz ranks 0
                    ((st₁.coll_seq + 1) % 2 ^ 32) st₁)
                  (others 0 ranks 0))
                st₁.sent;
        },
        bind_done (mpi_reduce ar fmt sendbuf recvbuf (pos c) type op (pos 0) mpi_comm_world) _ st
              st₁ run
            ∙ cast,
        rw (same.coll_seq, same.sent)
            (ap (λ (l : List Packet). onto l st.sent)
              (cast_packets result (pos c) type esz ranks 0 _ st st₁ (others 0 ranks 0) same.rank)),
        dropped,
      )
