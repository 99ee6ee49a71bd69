-- ===== src/Mpi/Collective/Broadcast.antt =====
-- What the root of a broadcast sends.
use neoos_libneoos.Mpi.Send.Tags.{coll_tag-allowed, coll_tag_low}
use neoos_libneoos.Base.{
  pass, enter, not, ◌||◌, map, ℕ, zero, suc, ◌+◌, ◌*◌, ◌^◌, ◌%◌, ◌≤◌, ◌<◌, ◌≡◌, refl, arith, ◌==◌,
  ◌∙◌, ap, true, false, some, List, [], ◌∷◌, if◌then◌else◌, Bool-cases, inl, inr,
}
use neoos_libneoos.Base.Int.{ℤ, pos, pos_part, eqb_ℤ, ltb_ℤ, leb_ℤ}
use neoos_libneoos.Mpi.Defs.{neqb_ℤ, mpi_comm_world, mpi_success, mpi_max_message, type_size}
use neoos_libneoos.Mpi.State.{bind_done, pure, Mpi, Packet, done}
use neoos_libneoos.Mpi.Send.{coll_tag, coll_bcast, mpi_send}
use neoos_libneoos.Mpi.Send.Laws.{mpi_send-delivers, IsSendable, packet_of, sent_state}
use neoos_libneoos.Mpi.Collective.{next_seq, bcast_loop, mpi_bcast}

-- The ranks from `i` up to `i + k`, without `r`.
abbrev pub others : ℕ → ℕ → ℕ → List ℕ
others r zero i = []
others r (suc k) i = if i == r then others r k (i + 1) else i ∷ others r k (i + 1)

-- What was sent before, and then `ps` one after the other.
abbrev pub onto : List Packet → List Packet → List Packet
onto [] sent = sent
onto (p ∷ ps) sent = onto ps (p ∷ sent)

-- A broadcast that may go out, from a process whose datagrams the kernel takes.
pub record IsCastable (st : Mpi) (n : ℕ) (count type comm : ℤ) (esz : ℕ) : Type 0 where
  pub world : comm ≡ mpi_comm_world
  pub ready : st.ready ≡ true
  pub size : st.size ≡ pos n
  pub count_low : ltb_ℤ count (pos 0) ≡ false
  pub sized : type_size type ≡ some esz
  pub fits : pos_part count * esz ≤ mpi_max_message
  pub taken : (sent : List Packet) (p : Packet) → st.takes sent p ≡ true

module _ (buf : List ℕ) (count type comm : ℤ) (esz n r seq : ℕ) where
  abbrev pub cast_packet : Mpi → ℕ → Packet
  cast_packet st j = packet_of buf count type (pos j) (coll_tag coll_bcast seq) esz st

  bcast_loop-others :
      (k i : ℕ) (st : Mpi)
      → IsCastable st n count type comm esz
      → i + k ≤ n
      → bcast_loop k i buf count type (pos r) (coll_tag coll_bcast seq) comm st
        ≡ done mpi_success (record st { sent = onto (map (cast_packet st) (others r k i)) st.sent })
  unfolding bcast_loop
  bcast_loop-others zero i st ok h = refl
  bcast_loop-others (suc k) i st ok h = elim (Bool-cases (i == r)) [
    | inl e ↦ rw (e, bcast_loop) (bcast_loop-others k (i + 1) st ok (omega arith))
    | inr e ↦
        let sendable : IsSendable st count type (pos i) (coll_tag coll_bcast seq) comm esz =
          record {
            world = ok.world;
            ready = ok.ready;
            dest_low = ground arith;
            dest_high = rw ok.size (ground arith);
            count_low = ok.count_low;
            tag_low = coll_tag_low coll_bcast seq (omega arith);
            sized = ok.sized;
          } in
        let sends =
          mpi_send-delivers buf count type (pos i) (coll_tag coll_bcast seq) comm esz st sendable
            (coll_tag-allowed coll_bcast seq (omega arith)) ok.fits (ok.taken _ _) in
        let st' = sent_state (cast_packet st i) st in
        let ok' : IsCastable st' n count type comm esz = record {
          world = ok.world;
          ready = ok.ready;
          size = ok.size;
          count_low = ok.count_low;
          sized = ok.sized;
          fits = ok.fits;
          taken = ok.taken;
        } in
        rw (e, bcast_loop)
          (bind_done (mpi_send buf count type (pos i) (coll_tag coll_bcast seq) comm) _ st st' sends
            ∙ bcast_loop-others k (i + 1) st' ok' (omega arith))
  ]

-- `MPI_Bcast` at the root, in a world of `n > 1` ranks, with a buffer that fits into a message and a
-- kernel that takes datagrams: it sends the buffer once to every other rank, in the order of the ranks
-- and under one new tag, leaves its own buffer alone, and returns MPI_SUCCESS.
pub mpi_bcast-others :
    (buf : List ℕ) (count type comm : ℤ) (esz n r : ℕ) (st : Mpi)
    → IsCastable st n count type comm esz
    → 1 < n
    → r < n
    → st.rank ≡ pos r
    → mpi_bcast buf count type (pos r) comm st
      ≡ done
          (mpi_success, buf)
          (record (next_seq st) {
            sent =
                onto
                  (map
                    (cast_packet buf count type comm esz n r ((st.coll_seq + 1) % 2 ^ 32) st)
                    (others r n 0))
                  st.sent;
          })
unfolding mpi_bcast
mpi_bcast-others buf count type comm esz n r st ok many here at =
    let seq = (st.coll_seq + 1) % 2 ^ 32 in
    let st' = next_seq st in
    let ok' : IsCastable st' n count type comm esz = record {
      world = ok.world;
      ready = ok.ready;
      size = ok.size;
      count_low = ok.count_low;
      sized = ok.sized;
      fits = ok.fits;
      taken = ok.taken;
    } in
    let all = bcast_loop-others buf count type comm esz n r seq n 0 st' ok' (omega arith) in
    let world : neqb_ℤ comm mpi_comm_world ≡ false = rw ok.world refl in
    let range : (ltb_ℤ (pos r) (pos 0) || leb_ℤ st.size (pos r)) ≡ false =
      rw ok.size (ground arith) in
    let several : eqb_ℤ st.size (pos 1) ≡ false = rw ok.size (ground arith) in
    let root : eqb_ℤ st.rank (pos r) ≡ true = rw at (ground arith) in
    let size : pos_part st.size ≡ n = ap pos_part ok.size in
    pass _ _ world (
      pass (not st.ready) _ (ground arith) (
        pass _ _ range (
          pass _ _ several (
            enter _ _ root (
              bind_done
                (bcast_loop (pos_part st.size) 0 buf count type (pos r) (coll_tag coll_bcast seq)
                  comm)
                (λ rc. pure (rc, buf)) st' _
                (ap
                    (λ (m : ℕ).
                      bcast_loop m 0 buf count type (pos r) (coll_tag coll_bcast seq) comm st')
                    size
                  ∙ all))))))
