-- ===== src/Mpi/Reduction/Other.antt =====
-- `MPI_Bcast`, `MPI_Reduce` and `MPI_Allreduce` of src/mpi.c at a rank that is not the root.
use neoos_libneoos.Mpi.Collective.Broadcast.{cast_packet}
use neoos_libneoos.Mpi.Wire.{message_of-make_frame, message_of}
use neoos_libneoos.Mpi.Send.Tags.{coll_tag-IsInt, coll_tag-allowed, coll_tag-allowed, coll_tag_low}
use neoos_libneoos.Mpi.Reduction.Root.{reduce_guards}
use neoos_libneoos.Mpi.Send.Laws.{mpi_send-delivers, packet_of, sent_state}
use neoos_libneoos.Mpi.Reduction.{mpi_allreduce, mpi_reduce, reduce_sized, Format}
use neoos_libneoos.Mpi.Reduce.{operation, Arithmetic}
use neoos_libneoos.Mpi.Receive.Exchange.{mpi_recv-receipt, receipt}
use neoos_libneoos.Mpi.Receive.{mpi_recv, Receipt}
use neoos_libneoos.Mpi.Send.{mpi_send, coll_reduce, coll_bcast, coll_tag}
use neoos_libneoos.Mpi.Receive.Accept.{at_hand, accepted}
use neoos_libneoos.Mpi.Collective.Open.{IsOpen}
use neoos_libneoos.Mpi.Pending.Chain.{Cells}
use neoos_libneoos.Mpi.Defs.{
  Header, neqb_ℤ, mpi_success, mpi_comm_world, Message, mpi_max_message, type_size,
}
use neoos_libneoos.Mpi.Collective.{next_seq, mpi_bcast}
use neoos_libneoos.Mpi.State.{bind_done, pure, Run, Run, done, Mpi}
use neoos_libneoos.Base.{
  ℕ, ◌*◌, ◌≤◌, ◌<◌, ◌≡◌, refl, ◌∙◌, ap, arith, true, false, not, ◌||◌, some, List, ◌∷◌, ◌++◌,
  length, length-take, take, drop, ltb, ◌==◌, if◌then◌else◌, pass, enter,
}
use neoos_libneoos.Base.Int.{ℤ, pos, ltb_ℤ, leb_ℤ, eqb_ℤ, IsInt}

-- What a rank of `n` passes to the collectives: `c` elements of `esz` bytes, which fit into a message.
pub record IsPart (n j c esz : ℕ) (type : ℤ) (st : Mpi) : Type 0 where
  pub rank : st.rank ≡ pos j
  pub within : j < n
  pub other : 0 < j
  pub sized : type_size type ≡ some esz
  pub fits : c * esz ≤ mpi_max_message
  pub count_int : IsInt (pos c)
  pub type_int : IsInt type

whole_receipt :
    (m : Message) (buf : List ℕ) (room : ℕ)
    → length m.body ≡ room
    → ((receipt m buf room).code ≡ mpi_success)
      × ((receipt m buf room).buf ≡ m.body ++ drop room buf)
whole_receipt m buf room h =
    let fits : ltb room (length m.body) ≡ false = ground (arith, h) in
    rw fits (refl, ap (λ n. m.body ++ drop n buf) h)

-- `MPI_Bcast` from rank 0 at rank `j`, when the broadcast comes in.
mpi_bcast-received :
    (buf result : List ℕ) (c : ℕ) (type : ℤ) (n j esz : ℕ) (st : Mpi) (xs : Cells) (m : Message)
    (later : List Message)
    → IsOpen n st xs
    → IsPart n j c esz type st
    → accepted (pos 0) (coll_tag coll_bcast (next_seq st).coll_seq) (at_hand xs st) ≡ m ∷ later
    → m.body ≡ result
    → length result ≡ c * esz
    → (st' : Mpi) × (mpi_bcast buf (pos c) type (pos 0) mpi_comm_world st
        ≡ done (mpi_success, result ++ drop (c * esz) buf) st')
      × (st'.sent ≡ st.sent)
unfolding mpi_bcast
mpi_bcast-received buf result c type n j esz st xs m later ok part here body size =
    let next = next_seq st in
    let tag = coll_tag coll_bcast next.coll_seq in
    let (st', ys, run, q, same, quiet, rest) =
      mpi_recv-receipt buf (pos c) type (pos 0) tag esz next xs m later
        (record {
          ready = ok.ready;
          range = rw ok.size (ground (arith, part.within));
          count_low = ground arith;
          sized = part.sized;
          small = omega (arith, part.fits);
          queue = ok.queue;
          quiet = ok.quiet;
        })
        here in
    let (code, bytes) = whole_receipt m buf (c * esz) (ap length body ∙ size) in
    let stored : (receipt m buf (c * esz)).buf ≡ result ++ drop (c * esz) buf =
      bytes ∙ ap (λ b. b ++ drop (c * esz) buf) body in
    (
      st',
      pass (not st.ready) _ (ground (arith, ok.ready)) (
          pass (ltb_ℤ (pos 0) (pos 0) || leb_ℤ st.size (pos 0)) _
            (rw ok.size (ground (arith, part.within)))
            (pass (eqb_ℤ st.size (pos 1)) _ (rw ok.size (ground (arith, part.within, part.other))) (
              pass (eqb_ℤ st.rank (pos 0)) _ (rw part.rank (ground (arith, part.other))) (
                bind_done (mpi_recv buf (pos c) type (pos 0) tag mpi_comm_world) store next st' run
                ∙ ap (λ k. done (k, (receipt m buf (c * esz)).buf) st') code
                ∙ ap (λ b. done (mpi_success, b) st') stored)))),
      same.sent,
    )
  where
    store : Receipt → Mpi → Run (ℕ × List ℕ)
    store r = pure (r.code, r.buf)

module _ {A : Type 0} (ar : Arithmetic A) (fmt : Format A) where
  -- `MPI_Reduce` to rank 0 at rank `j`.
  pub mpi_reduce-sent :
      (f : A → A → A) (sendbuf recvbuf : List ℕ) (c : ℕ) (type op : ℤ) (n j esz : ℕ) (st : Mpi)
      (xs : Cells)
      → IsOpen n st xs
      → IsPart n j c esz type st
      → operation ar op ≡ some f
      → mpi_reduce ar fmt sendbuf recvbuf (pos c) type op (pos 0) mpi_comm_world st
        ≡ done
            (mpi_success, recvbuf)
            (sent_state
              (packet_of sendbuf
                (pos c)
                type
                (pos 0)
                (coll_tag coll_reduce (next_seq st).coll_seq)
                esz
                st)
              (next_seq st))
  unfolding reduce_sized
  mpi_reduce-sent f sendbuf recvbuf c type op n j esz st xs ok part known =
      let next = next_seq st in
      let tag = coll_tag coll_reduce next.coll_seq in
      let away : neqb_ℤ st.rank (pos 0) ≡ true = rw part.rank (ground (arith, part.other)) in
      reduce_guards ar fmt f sendbuf recvbuf (pos c) type op n 0 esz st ok.ready ok.size
        (omega (arith, part.within)) part.sized known (ground (arith, part.fits))
        (ground (arith, part.fits))
      ∙ enter _ _ away (
          bind_done (mpi_send sendbuf (pos c) type (pos 0) tag mpi_comm_world)
            (λ rc. pure (rc, recvbuf)) next _
            (mpi_send-delivers sendbuf (pos c) type (pos 0) tag mpi_comm_world esz next
              (record {
                world = refl;
                ready = ok.ready;
                dest_low = ground arith;
                dest_high = rw ok.size (ground (arith, part.within));
                count_low = ground arith;
                tag_low = coll_tag_low coll_reduce next.coll_seq (omega arith);
                sized = part.sized;
              })
              (coll_tag-allowed coll_reduce next.coll_seq (omega arith)) part.fits (ok.taken _ _)))

  -- `MPI_Allreduce` at a rank other than 0, in a world of several ranks, with a kernel that takes
  -- datagrams and no error but EINTR: when the first message of rank 0 with the tag of the broadcast is what
  -- rank 0 broadcasts from its buffer `result`, the call sends the rank's own elements to rank 0 once, and
  -- nothing else, returns MPI_SUCCESS, and leaves the same bytes in `recvbuf` as stand in `result`.
  pub mpi_allreduce-agrees :
      (f : A → A → A) (sendbuf recvbuf result : List ℕ) (c : ℕ) (type op : ℤ) (n j esz : ℕ)
      (root st : Mpi) (xs : Cells) (later : List Message)
      → IsOpen n st xs
      → IsPart n j c esz type st
      → operation ar op ≡ some f
      → root.rank ≡ pos 0
      → c * esz ≤ length result
      → accepted (pos 0) (coll_tag coll_bcast (next_seq (next_seq st)).coll_seq) (at_hand xs st)
        ≡ message_of
            (cast_packet result
              (pos c)
              type
              mpi_comm_world
              esz
              n
              0
              (next_seq (next_seq st)).coll_seq
              root
              j).frame
          ∷ later
      → (st' : Mpi) × (mpi_allreduce ar fmt sendbuf recvbuf (pos c) type op mpi_comm_world st
          ≡ done (mpi_success, take (c * esz) result ++ drop (c * esz) recvbuf) st')
        × (st'.sent
            ≡ packet_of sendbuf
                (pos c)
                type
                (pos 0)
                (coll_tag coll_reduce (next_seq st).coll_seq)
                esz
                st
              ∷ st.sent)
  unfolding mpi_allreduce
  mpi_allreduce-agrees f sendbuf recvbuf result c type op n j esz root st xs later ok part known
        first long here =
      let tag = coll_tag coll_bcast (next_seq (next_seq st)).coll_seq in
      let p =
        packet_of sendbuf (pos c) type (pos 0) (coll_tag coll_reduce (next_seq st).coll_seq) esz
          st in
      let mid = sent_state p (next_seq st) in
      let ok' : IsOpen n mid xs = record {
        ready = ok.ready;
        size = ok.size;
        taken = ok.taken;
        queue = ok.queue;
        quiet = ok.quiet;
      } in
      let part' : IsPart n j c esz type mid = record {
        rank = part.rank;
        within = part.within;
        other = part.other;
        sized = part.sized;
        fits = part.fits;
        count_int = part.count_int;
        type_int = part.type_int;
      } in
      let hdr : Header = record { src = root.rank; tag = tag; count = pos c; type = type } in
      let body =
        ap (λ (m : Message). m.body)
          (message_of-make_frame hdr (take (c * esz) result) (record {
            src = rw first (omega arith);
            tag = coll_tag-IsInt coll_bcast (next_seq (next_seq st)).coll_seq (omega arith);
            count = part.count_int;
            type = part.type_int;
          })) in
      let (st', run, sent) =
        mpi_bcast-received recvbuf (take (c * esz) result) c type n j esz mid xs _ later ok' part'
          here body (omega (arith, length-take (c * esz) result)) in
      (
        st',
        bind_done (mpi_reduce ar fmt sendbuf recvbuf (pos c) type op (pos 0) mpi_comm_world) follow
              st mid (mpi_reduce-sent f sendbuf recvbuf c type op n j esz st xs ok part known)
            ∙ run,
        sent,
      )
    where
      follow : ℕ × List ℕ → Mpi → Run (ℕ × List ℕ)
      follow r st =
          if r.0 == mpi_success
          then mpi_bcast r.1 (pos c) type (pos 0) mpi_comm_world st
          else done r st
