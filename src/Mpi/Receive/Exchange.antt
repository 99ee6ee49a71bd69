-- ===== src/Mpi/Receive/Exchange.antt =====
-- `MPI_Send` and `MPI_Recv` of src/mpi.c together: one process sends, another receives.
use neoos_libneoos.Mpi.Receive.Arrive.{recv_match-gets}
use neoos_libneoos.Mpi.Send.Laws.{
  packet_of, sent_state, mpi_send-Sent, overflowed, refused, delivered, Sent,
}
use neoos_libneoos.Mpi.Send.{mpi_send}
use neoos_libneoos.Mpi.Wire.{message_of-make_frame, message_of, IsWire}
use neoos_libneoos.Mpi.Receive.Match.{NoError}
use neoos_libneoos.Mpi.Receive.Accept.{Untouched, at_hand, accepted}
use neoos_libneoos.Mpi.Pending.Chain.{IsQueue, Cells}
use neoos_libneoos.Mpi.Receive.{got, status_of, finish_recv, Receipt, mpi_recv}
use neoos_libneoos.Mpi.Defs.{
  mpi_comm_world, mpi_success, type_size, any_source, mpi_err_truncate, neqb_ℤ, Message,
}
use neoos_libneoos.Mpi.State.{undefined-done, ends_apart, Packet, done, Mpi}
use neoos_libneoos.Base.{
  some-injective, length-take, inr, inl, Bool-cases, ℕ, ◌*◌, ◌^◌, ◌≤◌, ◌<◌, ◌≡◌, refl, sym, ◌∙◌, ap,
  arith, true, false, not, ◌&&◌, ◌||◌, some, List, ◌∷◌, ◌++◌, length, take, drop, ltb, leb,
  if◌then◌else◌, pass,
}
use neoos_libneoos.Base.Int.{ℤ, pos, pos_part, ltb_ℤ, leb_ℤ}

-- A receiver that may wait for a message of rank `source`: `room` bytes, each element of `esz`.
pub record IsReceiver (st : Mpi) (xs : Cells) (buf : List ℕ) (count type source : ℤ) (esz : ℕ)
    : Type 0 where
  pub ready : st.ready ≡ true
  pub range : (neqb_ℤ source any_source && (ltb_ℤ source (pos 0) || leb_ℤ st.size source)) ≡ false
  pub count_low : ltb_ℤ count (pos 0) ≡ false
  pub sized : type_size type ≡ some esz
  pub small : pos_part count * esz < 2 ^ 31
  pub queue : IsQueue st.pool xs
  pub quiet : NoError st.inbox

-- The receipt for a message.
abbrev pub receipt : Message → List ℕ → ℕ → Receipt
receipt m buf room =
    if ltb room (length m.body)
    then record { code = mpi_err_truncate; buf = buf; status = status_of m mpi_err_truncate }
    else record {
      code = mpi_success;
      buf = m.body ++ drop (length m.body) buf;
      status = status_of m mpi_success;
    }

finish_recv-receipt :
    (buf : List ℕ) (count : ℤ) (esz : ℕ) (m : Message) (st : Mpi)
    → pos_part count * esz < 2 ^ 31
    → finish_recv buf count esz (got m) st ≡ done (receipt m buf (pos_part count * esz)) st
unfolding finish_recv
finish_recv-receipt buf count esz m st small =
    pass (leb (2 ^ 31) (pos_part count * esz)) _ (ground (arith, small))
      (elim (Bool-cases (ltb (pos_part count * esz) (length m.body))) [
        | inl long ↦ rw long refl
        | inr fits ↦ rw fits refl
      ])

-- A receive that accepts some message at hand returns the first such, and leaves the later ones.
pub mpi_recv-receipt :
    (buf : List ℕ) (count type source tag : ℤ) (esz : ℕ) (st : Mpi) (xs : Cells) (m : Message)
    (later : List Message)
    → IsReceiver st xs buf count type source esz
    → accepted source tag (at_hand xs st) ≡ m ∷ later
    → (st' : Mpi) × (ys : Cells) × (mpi_recv buf count type source tag mpi_comm_world st
        ≡ done (receipt m buf (pos_part count * esz)) st')
      × IsQueue st'.pool ys
      × Untouched st st'
      × NoError st'.inbox
      × (accepted source tag (at_hand ys st') ≡ later)
unfolding mpi_recv
mpi_recv-receipt buf count type source tag esz st xs m later ok here =
    let (st', ys, run, q, same, quiet, rest) =
      recv_match-gets source tag st xs m later ok.queue ok.quiet here in
    (
      st',
      ys,
      pass (not st.ready) _ (ground (arith, ok.ready)) (
          pass _ _ ok.range (
            pass _ _ ok.count_low
              (rw (ok.sized, run) (finish_recv-receipt buf count esz m st' ok.small)))),
      q,
      same,
      quiet,
      rest,
    )

-- A message that MPI_Send has sent with success, and that is the first of those at hand at another process
-- that its receive accepts: MPI_Recv gives the bytes that were sent, with the rank of the sender, the tag
-- and the number of bytes in the status, or, if the buffer is too small for them, MPI_ERR_TRUNCATE and the
-- buffer as it was; the later messages are at hand for the next such receive, in their order.
pub mpi_recv-mpi_send :
    (buf : List ℕ) (count type dest tag : ℤ) (esz : ℕ) (sender sender' : Mpi) (p : Packet)
    (into : List ℕ) (room into_type source wanted : ℤ) (into_esz : ℕ) (st : Mpi) (xs : Cells)
    (later : List Message)
    → IsWire (record { src = sender.rank; tag = tag; count = count; type = type })
    → type_size type ≡ some esz
    → pos_part count * esz ≤ length buf
    → mpi_send buf count type dest tag mpi_comm_world sender ≡ done mpi_success sender'
    → sender'.sent ≡ p ∷ sender.sent
    → IsReceiver st xs into room into_type source into_esz
    → accepted source wanted (at_hand xs st) ≡ message_of p.frame ∷ later
    → (st' : Mpi) × (ys : Cells) × (mpi_recv into room into_type source wanted mpi_comm_world st
        ≡ done
            (if ltb (pos_part room * into_esz) (pos_part count * esz)
              then record {
                code = mpi_err_truncate;
                buf = into;
                status = some (record {
                  source = sender.rank;
                  tag = tag;
                  error = mpi_err_truncate;
                  count = pos_part count * esz;
                });
              }
              else record {
                code = mpi_success;
                buf = take (pos_part count * esz) buf ++ drop (pos_part count * esz) into;
                status = some (record {
                  source = sender.rank;
                  tag = tag;
                  error = mpi_success;
                  count = pos_part count * esz;
                });
              })
            st')
      × IsQueue st'.pool ys
      × (accepted source wanted (at_hand ys st') ≡ later)
mpi_recv-mpi_send buf count type dest tag esz sender sender' p into room into_type source wanted
      into_esz st xs later wire sized long send out ok here =
    let m : Message = record {
      hdr = record { src = sender.rank; tag = tag; count = count; type = type };
      body = take (pos_part count * esz) buf;
    } in
    let framed : message_of p.frame ≡ m =
      frame_sent (mpi_send-Sent buf count type dest tag mpi_comm_world sender wire.tag) in
    let (st', ys, run, q, same, quiet, rest) =
      mpi_recv-receipt into room into_type source wanted into_esz st xs m later ok
        (here ∙ ap (λ k. k ∷ later) framed) in
    (st', ys, run ∙ ap (λ n. done (receipt_of n) st') bytes, q, rest)
  where
    bytes : length (take (pos_part count * esz) buf) ≡ pos_part count * esz
    bytes = omega (arith, length-take (pos_part count * esz) buf)

    receipt_of : ℕ → Receipt
    receipt_of n =
        if ltb (pos_part room * into_esz) n
        then record {
          code = mpi_err_truncate;
          buf = into;
          status =
              some
                (record { source = sender.rank; tag = tag; error = mpi_err_truncate; count = n });
        }
        else record {
          code = mpi_success;
          buf = take (pos_part count * esz) buf ++ drop n into;
          status =
              some (record { source = sender.rank; tag = tag; error = mpi_success; count = n });
        }

    frame_sent :
        Sent buf count type dest tag mpi_comm_world sender
          (mpi_send buf count type dest tag mpi_comm_world sender)
        → message_of p.frame ≡ record {
          hdr = record { src = sender.rank; tag = tag; count = count; type = type };
          body = take (pos_part count * esz) buf;
        }
    frame_sent (delivered n ok fits run) =
        let both : done mpi_success sender'
            ≡ done mpi_success (sent_state (packet_of buf count type dest tag n sender) sender) =
          sym send ∙ run in
        let after : sender' ≡ sent_state (packet_of buf count type dest tag n sender) sender = cc in
        let packets : p ∷ sender.sent ≡ packet_of buf count type dest tag n sender ∷ sender.sent =
          sym out ∙ ap (λ (w : Mpi). w.sent) after in
        let packet : p ≡ packet_of buf count type dest tag n sender = cc in
        let size : n ≡ esz = some-injective n esz (sym ok.sized ∙ sized) in
        ap (λ (k : Packet). message_of k.frame) packet
        ∙ message_of-make_frame
            (record { src = sender.rank; tag = tag; count = count; type = type })
            (take (pos_part count * n) buf) wire
        ∙ ap {B = Message}
            (λ k. record {
              hdr = record { src = sender.rank; tag = tag; count = count; type = type };
              body = take (pos_part count * k) buf;
            })
            size
    frame_sent (refused rc bad run) = absurd (ends_apart bad (sym run ∙ send))
    frame_sent (overflowed n ok big run) = absurd (undefined-done (sym run ∙ send))
