-- ===== src/Mpi/Collective/Tests.antt =====
-- The theorems on `MPI_Barrier` of src/mpi.c at concrete inputs: a world of two ranks.
use neoos_libneoos.Mpi.Receive.Match.{incoming}
use neoos_libneoos.Mpi.Receive.Accept.{at_hand, accepted}
use neoos_libneoos.Mpi.Collective.Tokens.{from_ranks}
use neoos_libneoos.Mpi.Collective.Ranks.{packets_with}
use neoos_libneoos.Mpi.Pending.{pending_take}
use neoos_libneoos.Mpi.Receive.{finish_recv, judge, recv_loop, recv_match, mpi_recv}
use neoos_libneoos.Mpi.Wire.{message_of, make_frame}
use neoos_libneoos.Mpi.Send.{coll_tag, mpi_send, packet_for}
use neoos_libneoos.Mpi.Collective.Barrier.{Network, barrier_holds, outbox, IsWorld}
use neoos_libneoos.Mpi.Collective.Entry.{release_tag, token_tag}
use neoos_libneoos.Mpi.Collective.{release_loop, barrier_root, gather_loop, mpi_barrier}
use neoos_libneoos.Base.Census.{census}
use neoos_libneoos.Mpi.State.{done, datagram, Mpi, Arrival}
use neoos_libneoos.Mpi.Defs.{matches, type_size, mpi_success, mpi_comm_world, mpi_byte, Message}
use neoos_libneoos.Base.{
  ℕ, zero, suc, ◌≤◌, ◌<◌, ◌≡◌, refl, arith, Bool, true, false, none, List, [], ◌∷◌, ltb, length,
}
use neoos_libneoos.Base.Int.{ℤ, pos}

abbrev token : ℤ → ℤ → Message
token from tag = record {
  hdr = record { src = from; tag = tag; count = pos 1; type = mpi_byte };
  body = 0 ∷ [];
}

abbrev comes : ℤ → ℤ → Arrival
comes from tag =
    datagram
      (make_frame (record { src = from; tag = tag; count = pos 1; type = mpi_byte }) (0 ∷ []))

abbrev process : ℕ → List Arrival → Mpi
process j arrivals = record {
  rank = pos j;
  size = pos 2;
  sock = pos 3;
  ready = true;
  coll_seq = 0;
  pool = record {
    slot = λ _. record { next = none; msg = token (pos 0) (pos 0) };
    used = λ _. false;
    head = none;
  };
  inbox = arrivals;
  sent = [];
  takes = λ _ _. true;
  dropped = [];
}

-- Rank 0 gets the token of rank 1, which is then released.
abbrev arrivals : ℕ → List Arrival
arrivals zero = comes (pos 1) (token_tag 0) ∷ []
arrivals (suc k) = comes (pos 0) (release_tag 0) ∷ []

abbrev state : ℕ → Mpi
state j = process j (arrivals j)

abbrev entered : ℕ → Bool
entered j = ltb j 2

abbrev after : Mpi
after = record (process 1 []) {
  coll_seq = 1;
  sent = packet_for (process 1 []) (pos 0) (token_tag 0) mpi_byte (pos 1) (0 ∷ []) ∷ [];
}

state-IsWorld : IsWorld 2 0 state (λ _. [])
unfolding census
state-IsWorld = record {
  at_most = omega arith;
  rank = λ j lt. refl;
  size = λ j lt. refl;
  ready = λ j lt. refl;
  coll_seq = λ j lt. refl;
  queue = λ j lt. record {
    chain = refl;
    distinct = tt;
    used = λ i h. cc;
    apart = λ i h. cc;
    counted = refl;
  };
}

ran : mpi_barrier mpi_comm_world (state 1) ≡ done mpi_success after
unfolding mpi_barrier mpi_send mpi_recv recv_match coll_tag type_size recv_loop judge make_frame
    message_of matches finish_recv pending_take
ran = refl

state-Network : Network 2 0 state (λ _. []) entered
unfolding mpi_barrier mpi_send mpi_recv recv_match coll_tag type_size recv_loop judge make_frame
    message_of matches finish_recv pending_take packets_with from_ranks accepted incoming
    gather_loop barrier_root release_loop
state-Network = record {
  known = refl;
  tokens = λ j lt. by_rank j lt;
  releases = λ i lt. to_rank i lt;
  fresh = λ j lt. (refl, refl);
}
  where
    by_rank :
        (j : ℕ)
        → j < 2
        → length (accepted (pos j) (token_tag 0) (at_hand [] (state 0)))
          ≤ packets_with (token_tag 0) (outbox state entered j)
    by_rank zero lt = omega arith
    by_rank (suc zero) lt = omega arith
    by_rank (suc (suc k)) lt = absurd (omega arith)

    to_rank :
        (i : ℕ)
        → i < 2
        → length (accepted (pos 0) (release_tag 0) (at_hand [] (state i)))
          ≤ packets_with (release_tag 0) (outbox state entered 0)
    to_rank zero lt = omega arith
    to_rank (suc zero) lt = omega arith
    to_rank (suc (suc k)) lt = absurd (omega arith)

-- Rank 1 returns, and rank 0 has entered.
barrier_holds_example : entered 0 ≡ true
barrier_holds_example =
    barrier_holds 2 0 state (λ _. []) entered state-IsWorld state-Network 1 after (omega arith) refl
      ran 0 (omega arith)
