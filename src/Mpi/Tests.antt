-- ===== src/Mpi/Tests.antt =====
-- The theorems on src/mpi.c at concrete inputs.
use neoos_libneoos.Mpi.Launch.Started.{mpi_launch-Launching, Launching}
use neoos_libneoos.Mpi.Collective.{next_seq, mpi_bcast}
use neoos_libneoos.Mpi.Collective.Broadcast.{
  IsCastable, cast_packet, others, onto, mpi_bcast-others,
}
use neoos_libneoos.Mpi.Send.Tags.{coll_tag-injective, tag_refused-negative}
use neoos_libneoos.Mpi.Launch.{mpi_launch}
use neoos_libneoos.Base.{
  ◌↔◌, ◌≢◌, ◌<◌, ◌%◌, ◌^◌, if◌then◌else◌, zero, suc, map, ltb, ℕ, ◌+◌, ◌≡◌, refl, arith, none, some,
  List, [], ◌∷◌, ◌++◌, ◌==◌, true,
}
use neoos_libneoos.Base.Int.{minus, ℤ, pos_part, ltb_ℤ, pos}
use neoos_libneoos.Base.Census.{census}
use neoos_libneoos.Mpi.Defs.{
  mpi_comm_world, mpi_byte, type_size, tag_go, tag_hello, mpi_success, mpi_tag_ub, Message, Header,
}
use neoos_libneoos.Mpi.Wire.{make_frame}
use neoos_libneoos.Mpi.Pending.{Pool, pending_take}
use neoos_libneoos.Mpi.Pending.Chain.{IsQueue, IsHolding, messages, Cells}
use neoos_libneoos.Mpi.Pending.Take.{first, without, slot_of, pending_take-first}
use neoos_libneoos.Mpi.State.{done, Mpi, Arrival, datagram, failed}
use neoos_libneoos.Mpi.Receive.{keep_message, recv_match, mpi_recv}
use neoos_libneoos.Mpi.Receive.Match.{Kept, keep_message-Kept, incoming}
use neoos_libneoos.Mpi.Receive.Laws.{Outcome, recv_match-Outcome}
use neoos_libneoos.Mpi.Receive.Safe.{Safe, recv_match-Safe}
use neoos_libneoos.Mpi.Receive.Finish.{RecvEnd, mpi_recv-RecvEnd}
use neoos_libneoos.Mpi.Send.{coll_bcast, coll_reduce, tag_refused, coll_tag, mpi_send}
use neoos_libneoos.Mpi.Send.Laws.{Sent, mpi_send-Sent}

abbrev hdr : ℕ → Header
hdr t = record { src = pos 1; tag = pos t; count = pos 1; type = pos 0 }

abbrev msg : ℕ → Message
msg t = record { hdr = hdr t; body = 7 ∷ [] }

-- One message with tag 5 waits in slot 0.
abbrev pool : Pool
pool = record { slot = λ _. record { next = none; msg = msg 5 }; used = λ i. i == 0; head = some 0 }

abbrev queue : Cells
queue = (0, msg 5) ∷ []

abbrev inbox : List Arrival
inbox =
    failed 4 ∷ datagram (make_frame (hdr 6) (8 ∷ [])) ∷ datagram (make_frame (hdr 7) (9 ∷ [])) ∷ []

abbrev state : Mpi
state = record {
  rank = pos 0;
  size = pos 2;
  sock = pos 3;
  ready = true;
  coll_seq = 0;
  pool = pool;
  inbox = inbox;
  sent = [];
  takes = λ _ _. true;
  dropped = [];
}

pool-IsQueue : IsQueue pool queue
unfolding census
pool-IsQueue = record {
  chain = (refl, refl, refl);
  distinct = (refl, tt);
  used = λ i h. ground arith;
  apart = λ i h. cc;
  counted = refl;
}

recv_match-Outcome_example :
    Outcome
      (pos 1)
      (pos 7)
      state
      (messages queue ++ incoming inbox)
      (recv_match (pos 1) (pos 7) state)
unfolding incoming make_frame
recv_match-Outcome_example =
    recv_match-Outcome (pos 1) (pos 7) state queue pool-IsQueue (refl, tt) (omega arith)

recv_match-Safe_example : Safe (recv_match (pos 1) (pos 7) state)
recv_match-Safe_example = recv_match-Safe (pos 1) (pos 7) state queue pool-IsQueue

mpi_recv-RecvEnd_example :
    RecvEnd
      (0 ∷ 0 ∷ [])
      (pos 2)
      (pos 0)
      (pos 1)
      (pos 7)
      (pos 0)
      state
      (mpi_recv (0 ∷ 0 ∷ []) (pos 2) (pos 0) (pos 1) (pos 7) (pos 0) state)
mpi_recv-RecvEnd_example =
    mpi_recv-RecvEnd (0 ∷ 0 ∷ []) (pos 2) (pos 0) (pos 1) (pos 7) (pos 0) state queue pool-IsQueue

mpi_send-Sent_example :
    Sent
      (4 ∷ [])
      (pos 1)
      (pos 0)
      (pos 1)
      (pos 7)
      (pos 0)
      state
      (mpi_send (4 ∷ []) (pos 1) (pos 0) (pos 1) (pos 7) (pos 0) state)
mpi_send-Sent_example =
    mpi_send-Sent (4 ∷ []) (pos 1) (pos 0) (pos 1) (pos 7) (pos 0) state (omega arith)

pending_take-first_example :
    (p' : Pool) × (pending_take (pos 1) (pos 5) pool
      ≡ some (slot_of (first (pos 1) (pos 5) queue), p'))
    × IsHolding (slot_of (first (pos 1) (pos 5) queue)) p' (without (pos 1) (pos 5) queue)
    × ((j : ℕ) → (p'.slot j).msg ≡ (pool.slot j).msg)
pending_take-first_example = pending_take-first (pos 1) (pos 5) pool queue pool-IsQueue

-- Sixteen messages fill the pool.
abbrev full_pool : Pool
full_pool = record {
  slot = λ i. record { next = if ltb i 15 then some (i + 1) else none; msg = msg 5 };
  used = λ i. ltb i 16;
  head = some 0;
}

abbrev cells : ℕ → ℕ → Cells
cells zero i = []
cells (suc k) i = (i, msg 5) ∷ cells k (i + 1)

full_pool-IsQueue : IsQueue full_pool (cells 16 0)
unfolding census
full_pool-IsQueue = record {
  chain = (
    refl,
    refl,
    (
      refl,
      refl,
      (
        refl,
        refl,
        (
          refl,
          refl,
          (
            refl,
            refl,
            (
              refl,
              refl,
              (
                refl,
                refl,
                (
                  refl,
                  refl,
                  (
                    refl,
                    refl,
                    (
                      refl,
                      refl,
                      (
                        refl,
                        refl,
                        (refl, refl, (refl, refl, (refl, refl, (refl, refl, (refl, refl, refl))))),
                      ),
                    ),
                  ),
                ),
              ),
            ),
          ),
        ),
      ),
    ),
  );
  distinct = (
    refl,
    (
      refl,
      (
        refl,
        (
          refl,
          (
            refl,
            (
              refl,
              (refl, (refl, (refl, (refl, (refl, (refl, (refl, (refl, (refl, (refl, tt)))))))))),
            ),
          ),
        ),
      ),
    ),
  );
  used = λ i h. ground arith;
  apart = λ i h. cc;
  counted = refl;
}

keep_message-Kept_example :
    Kept
      (msg 6)
      (record state { pool = full_pool })
      (cells 16 0)
      (keep_message (msg 6) (record state { pool = full_pool }))
keep_message-Kept_example =
    keep_message-Kept (msg 6) (record state { pool = full_pool }) (cells 16 0) full_pool-IsQueue

coll_tag-injective_example :
    ((coll_tag coll_reduce 1 ≡ coll_tag coll_bcast 2)
      ↔ ((coll_reduce ≡ coll_bcast) × (1 % 2 ^ 24 ≡ 2 % 2 ^ 24)))
    × (mpi_tag_ub < pos_part (coll_tag coll_reduce 1))
    × (coll_tag coll_reduce 1 ≢ tag_hello)
    × (coll_tag coll_reduce 1 ≢ tag_go)
coll_tag-injective_example =
    coll_tag-injective coll_reduce coll_bcast 1 2 (omega arith) (omega arith)

tag_refused-negative_example : tag_refused (pos 0x7F000005) ≡ ltb_ℤ (pos 0x7F000005) (pos 0)
tag_refused-negative_example = tag_refused-negative (pos 0x7F000005) (omega arith)

-- `spawnv` succeeds for rank 0 only.
abbrev first_only : List (List ℕ) → ℤ
first_only (path ∷ (c ∷ []) ∷ rest) = if c == 48 then pos 42 else minus 1
first_only _ = minus 1

mpi_launch-Launching_example :
    Launching first_only (b'p' ∷ []) (pos 3) (mpi_launch first_only (b'p' ∷ []) (pos 3))
mpi_launch-Launching_example = mpi_launch-Launching first_only (b'p' ∷ []) (pos 3)

-- Rank 1 of three ranks, with an empty queue.
abbrev caster : Mpi
caster = record state { rank = pos 1; size = pos 3 }

caster-IsCastable : IsCastable caster 3 (pos 1) mpi_byte mpi_comm_world 1
unfolding type_size
caster-IsCastable = record {
  world = refl;
  ready = refl;
  size = refl;
  count_low = refl;
  sized = refl;
  fits = omega arith;
  taken = λ sent p. refl;
}

mpi_bcast-others_example :
    mpi_bcast (9 ∷ []) (pos 1) mpi_byte (pos 1) mpi_comm_world caster
    ≡ done
        (mpi_success, 9 ∷ [])
        (record (next_seq caster) {
          sent =
              onto
                (map
                  (cast_packet
                    (9 ∷ [])
                    (pos 1)
                    mpi_byte
                    mpi_comm_world
                    1
                    3
                    1
                    ((caster.coll_seq + 1) % 2 ^ 32)
                    caster)
                  (others 1 3 0))
                caster.sent;
        })
mpi_bcast-others_example =
    mpi_bcast-others (9 ∷ []) (pos 1) mpi_byte mpi_comm_world 1 3 1 caster caster-IsCastable
      (omega arith) (omega arith) refl
