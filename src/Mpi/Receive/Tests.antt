-- ===== src/Mpi/Receive/Tests.antt =====
-- The theorem on `MPI_Send` and `MPI_Recv` of src/mpi.c together at a concrete input.
use neoos_libneoos.Mpi.Receive.{mpi_recv}
use neoos_libneoos.Mpi.Pending.Chain.{IsQueue, Cells}
use neoos_libneoos.Mpi.Receive.Match.{incoming}
use neoos_libneoos.Mpi.Receive.Accept.{at_hand, accepted}
use neoos_libneoos.Mpi.Receive.Exchange.{mpi_recv-mpi_send, mpi_recv-mpi_send, IsReceiver}
use neoos_libneoos.Mpi.Defs.{mpi_success, mpi_comm_world, matches, any_source, type_size, mpi_byte}
use neoos_libneoos.Mpi.Send.{packet_for, mpi_send}
use neoos_libneoos.Base.Census.{census}
use neoos_libneoos.Mpi.Wire.{message_of, make_frame}
use neoos_libneoos.Mpi.State.{done, datagram, Packet, Mpi, Arrival}
use neoos_libneoos.Base.{ℕ, ◌≡◌, refl, arith, true, false, none, some, List, [], ◌∷◌}
use neoos_libneoos.Base.Int.{pos}

abbrev process : ℕ → List Arrival → Mpi
process j arrivals = record {
  rank = pos j;
  size = pos 2;
  sock = pos 3;
  ready = true;
  coll_seq = 0;
  pool = record {
    slot = λ _. record {
      next = none;
      msg = record {
        hdr = record { src = pos 0; tag = pos 0; count = pos 0; type = mpi_byte };
        body = [];
      };
    };
    used = λ _. false;
    head = none;
  };
  inbox = arrivals;
  sent = [];
  takes = λ _ _. true;
  dropped = [];
}

-- Rank 1 sends two bytes with the tag 5.
abbrev sender : Mpi
sender = process 1 []

abbrev packet : Packet
packet = packet_for sender (pos 0) (pos 5) mpi_byte (pos 2) (7 ∷ 8 ∷ [])

-- A message with the tag 6 comes first.
abbrev other : List ℕ
other = make_frame (record { src = pos 1; tag = pos 6; count = pos 1; type = mpi_byte }) (1 ∷ [])

abbrev receiver : Mpi
receiver = process 0 (datagram other ∷ datagram packet.frame ∷ [])

receiver-IsReceiver : IsReceiver receiver [] (9 ∷ 9 ∷ 9 ∷ []) (pos 3) mpi_byte any_source 1
unfolding census type_size
receiver-IsReceiver = record {
  ready = refl;
  range = refl;
  count_low = refl;
  sized = refl;
  small = omega arith;
  queue = record {
    chain = refl;
    distinct = tt;
    used = λ i h. cc;
    apart = λ i h. cc;
    counted = refl;
  };
  quiet = tt;
}

-- The buffer holds the two bytes, and then what stood there.
mpi_recv-mpi_send_example :
    (st' : Mpi) × (ys : Cells) × (mpi_recv
        (9 ∷ 9 ∷ 9 ∷ [])
        (pos 3)
        mpi_byte
        any_source
        (pos 5)
        mpi_comm_world
        receiver
      ≡ done
          (record {
            code = mpi_success;
            buf = 7 ∷ 8 ∷ 9 ∷ [];
            status = some (record { source = pos 1; tag = pos 5; error = mpi_success; count = 2 });
          })
          st')
    × IsQueue st'.pool ys
    × (accepted any_source (pos 5) (at_hand ys st') ≡ [])
unfolding mpi_send type_size make_frame accepted matches message_of incoming
mpi_recv-mpi_send_example =
    mpi_recv-mpi_send (7 ∷ 8 ∷ []) (pos 2) mpi_byte (pos 0) (pos 5) 1 sender
      (record sender { sent = packet ∷ [] }) packet (9 ∷ 9 ∷ 9 ∷ []) (pos 3) mpi_byte any_source
      (pos 5) 1 receiver [] []
      (record { src = omega arith; tag = omega arith; count = omega arith; type = omega arith })
      refl (omega arith) refl refl receiver-IsReceiver refl
