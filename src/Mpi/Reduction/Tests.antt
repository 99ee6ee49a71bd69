-- ===== src/Mpi/Reduction/Tests.antt =====
-- The theorems on `MPI_Reduce` and `MPI_Allreduce` of src/mpi.c at concrete inputs: elements of type MPI_INT.
use neoos_libneoos.Mpi.Collective.Tokens.{count_from, from_ranks}
use neoos_libneoos.Mpi.Collective.Ranks.{packets_with}
use neoos_libneoos.Mpi.Reduction.World.{
  outbox, Brings, reduce_each_once, part_tag, IsContributing, Parts,
}
use neoos_libneoos.Mpi.Reduction.Other.{mpi_allreduce-agrees, IsPart}
use neoos_libneoos.Mpi.Collective.Open.{IsOpen}
use neoos_libneoos.Mpi.Collective.Broadcast.{cast_packet}
use neoos_libneoos.Mpi.Reduction.Allreduce.{mpi_allreduce-folded}
use neoos_libneoos.Mpi.Send.Laws.{packet_of}
use neoos_libneoos.Base.{
  zero, suc, ◌≤◌, suc, ◌<◌, ℕ, ◌+◌, ◌*◌, ◌/◌, ◌%◌, ◌≡◌, refl, arith, true, false, none, List, [],
  ◌∷◌, length, ltb,
}
use neoos_libneoos.Base.Int.{pos}
use neoos_libneoos.Base.Census.{census}
use neoos_libneoos.Mpi.Defs.{
  Header, Message, mpi_int, mpi_sum, mpi_success, mpi_comm_world, type_size, matches,
}
use neoos_libneoos.Mpi.Wire.{make_frame, message_of}
use neoos_libneoos.Mpi.Pending.Chain.{IsQueue}
use neoos_libneoos.Mpi.Send.{mpi_send, coll_bcast, coll_tag, coll_reduce}
use neoos_libneoos.Mpi.State.{Mpi, done, datagram}
use neoos_libneoos.Mpi.Receive.Match.{incoming}
use neoos_libneoos.Mpi.Reduce.{Arithmetic, reducible}
use neoos_libneoos.Mpi.Receive.Accept.{at_hand, accepted}
use neoos_libneoos.Mpi.Reduction.{reduce_sized, mpi_allreduce, Format, mpi_reduce}
use neoos_libneoos.Mpi.Reduction.Fold.{IsFormat}
use neoos_libneoos.Mpi.Reduction.Root.{IsRoot}

-- A number of 32 bits as its four bytes, the lowest first.
abbrev Word : Type 0
Word = ℕ × ℕ × ℕ × ℕ

abbrev value : Word → ℕ
value (a, b, c, d) = a + 256 * (b + 256 * (c + 256 * d))

abbrev word : ℕ → Word
word n = (n % 256, n / 256 % 256, n / 65536 % 256, n / 16777216 % 256)

abbrev words : Arithmetic Word
words = record {
  add = λ x y. word (value x + value y);
  mul = λ x y. word (value x * value y);
  less = λ x y. ltb (value x) (value y);
}

abbrev load : List ℕ → List Word
load (a ∷ b ∷ c ∷ d ∷ rest) = (a, b, c, d) ∷ load rest
load _ = []

abbrev store : List Word → List ℕ
store [] = []
store ((a, b, c, d) ∷ rest) = a ∷ b ∷ c ∷ d ∷ store rest

abbrev fmt : Format Word
fmt = record { load = load; store = store }

store_load : (x : List ℕ) → length x ≡ 4 → store (load x) ≡ x
store_load [] h = refl
store_load (a ∷ []) h = absurd (omega arith)
store_load (a ∷ b ∷ []) h = absurd (omega arith)
store_load (a ∷ b ∷ c ∷ []) h = absurd (omega arith)
store_load (a ∷ b ∷ c ∷ d ∷ []) h = refl
store_load (a ∷ b ∷ c ∷ d ∷ e ∷ x) h = absurd (omega arith)

length_load : (x : List ℕ) → length x ≡ 4 → length (load x) ≡ 1
length_load [] h = absurd (omega arith)
length_load (a ∷ []) h = absurd (omega arith)
length_load (a ∷ b ∷ []) h = absurd (omega arith)
length_load (a ∷ b ∷ c ∷ []) h = absurd (omega arith)
length_load (a ∷ b ∷ c ∷ d ∷ []) h = refl
length_load (a ∷ b ∷ c ∷ d ∷ e ∷ x) h = absurd (omega arith)

length_store : (d : List Word) → length d ≡ 1 → length (store d) ≡ 4
length_store [] h = absurd (omega arith)
length_store (x ∷ []) h = refl
length_store (x ∷ y ∷ d) h = absurd (omega arith)

load_store : (d : List Word) → length d ≡ 1 → load (store d) ≡ d
load_store [] h = refl
load_store (x ∷ []) h = refl
load_store (x ∷ y ∷ d) h = absurd (omega arith)

fmt-IsFormat : IsFormat fmt 1 4
fmt-IsFormat = record {
  length_load = length_load;
  length_store = length_store;
  load_store = load_store;
  store_load = store_load;
}

abbrev hdr : Header
hdr = record { src = pos 1; tag = coll_tag coll_reduce 1; count = pos 1; type = mpi_int }

-- The contribution 44 * 256 + 1 of rank 1.
abbrev contribution : Message
contribution = record { hdr = hdr; body = 1 ∷ 44 ∷ 0 ∷ 0 ∷ [] }

abbrev state : Mpi
state = record {
  rank = pos 0;
  size = pos 2;
  sock = pos 3;
  ready = true;
  coll_seq = 0;
  pool = record {
    slot = λ _. record { next = none; msg = contribution };
    used = λ _. false;
    head = none;
  };
  inbox = datagram (make_frame hdr (1 ∷ 44 ∷ 0 ∷ 0 ∷ [])) ∷ [];
  sent = [];
  takes = λ _ _. true;
  dropped = [];
}

empty-IsQueue : IsQueue state.pool []
unfolding census
empty-IsQueue = record {
  chain = refl;
  distinct = tt;
  used = λ i h. cc;
  apart = λ i h. cc;
  counted = refl;
}

state-IsRoot : IsRoot state 2 0 mpi_int 4
unfolding type_size
state-IsRoot = record { ready = refl; size = refl; rank = refl; within = omega arith; sized = refl }

-- Rank 0 has 255, and its buffer of six bytes ends in 9, 9; both ranks get the result.
mpi_allreduce-folded_example :
    (st' : Mpi) × (mpi_allreduce words fmt
        (255 ∷ 0 ∷ 0 ∷ 0 ∷ [])
        (9 ∷ 9 ∷ 9 ∷ 9 ∷ 9 ∷ 9 ∷ [])
        (pos 1)
        mpi_int
        mpi_sum
        mpi_comm_world
        state
      ≡ done (mpi_success, 0 ∷ 45 ∷ 0 ∷ 0 ∷ 9 ∷ 9 ∷ []) st')
    × (st'.sent
        ≡ packet_of (0 ∷ 45 ∷ 0 ∷ 0 ∷ []) (pos 1) mpi_int (pos 1) (coll_tag coll_bcast 2) 4 state
          ∷ [])
    × (st'.dropped ≡ [])
unfolding incoming make_frame accepted coll_tag reducible matches message_of
mpi_allreduce-folded_example =
    mpi_allreduce-folded words fmt words.add (255 ∷ 0 ∷ 0 ∷ 0 ∷ []) (9 ∷ 9 ∷ 9 ∷ 9 ∷ 9 ∷ 9 ∷ []) 1
      mpi_int mpi_sum 2 4 state [] (contribution ∷ []) [] state-IsRoot (omega arith)
      (λ sent p. refl) fmt-IsFormat refl refl (omega arith) (omega arith) empty-IsQueue tt
      (omega arith) refl refl (refl, tt)

-- The same at rank 1: what rank 0 broadcasts comes in.
abbrev result : List ℕ
result = 0 ∷ 45 ∷ 0 ∷ 0 ∷ 9 ∷ 9 ∷ []

abbrev other : Mpi
other = record state {
  rank = pos 1;
  inbox = datagram (cast_packet result (pos 1) mpi_int mpi_comm_world 4 2 0 2 state 1).frame ∷ [];
}

other-IsOpen : IsOpen 2 other []
other-IsOpen = record {
  ready = refl;
  size = refl;
  taken = λ sent p. refl;
  queue = empty-IsQueue;
  quiet = tt;
}

other-IsPart : IsPart 2 1 1 4 mpi_int other
unfolding type_size
other-IsPart = record {
  rank = refl;
  within = omega arith;
  other = omega arith;
  sized = refl;
  fits = omega arith;
  count_int = omega arith;
  type_int = omega arith;
}

mpi_allreduce-agrees_example :
    (st' : Mpi) × (mpi_allreduce words fmt
        (1 ∷ 44 ∷ 0 ∷ 0 ∷ [])
        (7 ∷ 7 ∷ 7 ∷ 7 ∷ 7 ∷ [])
        (pos 1)
        mpi_int
        mpi_sum
        mpi_comm_world
        other
      ≡ done (mpi_success, 0 ∷ 45 ∷ 0 ∷ 0 ∷ 7 ∷ []) st')
    × (st'.sent
        ≡ packet_of (1 ∷ 44 ∷ 0 ∷ 0 ∷ []) (pos 1) mpi_int (pos 0) (coll_tag coll_reduce 1) 4 other
          ∷ [])
unfolding incoming make_frame accepted coll_tag matches message_of
mpi_allreduce-agrees_example =
    mpi_allreduce-agrees words fmt words.add (1 ∷ 44 ∷ 0 ∷ 0 ∷ []) (7 ∷ 7 ∷ 7 ∷ 7 ∷ 7 ∷ []) result 1
      mpi_int mpi_sum 2 1 4 state other [] [] other-IsOpen other-IsPart refl refl (omega arith) refl

-- The two ranks together.
abbrev at_rank : ℕ → Mpi
at_rank zero = state
at_rank (suc k) = other

abbrev own_part : ℕ → List ℕ
own_part zero = 255 ∷ 0 ∷ 0 ∷ 0 ∷ []
own_part (suc k) = 1 ∷ 44 ∷ 0 ∷ 0 ∷ []

abbrev parts : Parts
parts = record {
  state = at_rank;
  queue = λ _. [];
  send = own_part;
  recv = λ _. 9 ∷ 9 ∷ 9 ∷ 9 ∷ [];
  entered = λ j. ltb j 2;
}

parts-IsContributing : IsContributing words fmt 1 mpi_int mpi_sum 2 4 0 parts
unfolding packets_with
parts-IsContributing = record {
  at_most = omega arith;
  ready = λ j p lt. ready j p lt;
  part = λ j p lt. part j p lt;
  coll_seq = λ j lt. number j;
  fresh = λ j lt. fresh j;
}
  where
    ready : (j : ℕ) → 0 < j → j < 2 → IsOpen 2 (at_rank j) []
    ready zero p lt = absurd (omega arith)
    ready (suc zero) p lt = other-IsOpen
    ready (suc (suc k)) p lt = absurd (omega arith)

    part : (j : ℕ) → 0 < j → j < 2 → IsPart 2 j 1 4 mpi_int (at_rank j)
    part zero p lt = absurd (omega arith)
    part (suc zero) p lt = other-IsPart
    part (suc (suc k)) p lt = absurd (omega arith)

    number : (j : ℕ) → (at_rank j).coll_seq ≡ 0
    number zero = refl
    number (suc k) = refl

    fresh : (j : ℕ) → packets_with (part_tag 0) (at_rank j).sent ≡ 0
    fresh zero = refl
    fresh (suc k) = refl

parts-Brings : Brings words fmt 1 mpi_int mpi_sum 2 4 0 parts
unfolding packets_with from_ranks accepted incoming make_frame message_of matches coll_tag
    mpi_reduce mpi_send type_size reduce_sized
parts-Brings = record { known = refl; parts = λ j lt. brought j lt }
  where
    brought :
        (j : ℕ)
        → j < 2
        → length (accepted (pos j) (part_tag 0) (at_hand [] state))
          ≤ packets_with (part_tag 0) (outbox words fmt 1 mpi_int mpi_sum 2 4 0 parts j)
    brought zero lt = omega arith
    brought (suc zero) lt = omega arith
    brought (suc (suc k)) lt = absurd (omega arith)

reduce_each_once_example :
    ((st' : Mpi) × (mpi_reduce words fmt
          (255 ∷ 0 ∷ 0 ∷ 0 ∷ [])
          (9 ∷ 9 ∷ 9 ∷ 9 ∷ [])
          (pos 1)
          mpi_int
          mpi_sum
          (pos 0)
          mpi_comm_world
          state
        ≡ done (mpi_success, 0 ∷ 45 ∷ 0 ∷ 0 ∷ []) st'))
    × ((j : ℕ) → 0 < j → j < 2 → (count_from j (contribution ∷ []) ≡ 1) × (ltb j 2 ≡ true))
unfolding incoming make_frame accepted coll_tag reducible matches message_of
reduce_each_once_example =
    reduce_each_once words fmt 1 mpi_int mpi_sum 2 4 0 parts words.add parts-IsContributing
      parts-Brings refl (contribution ∷ []) [] state-IsRoot refl fmt-IsFormat refl (omega arith)
      (omega arith) empty-IsQueue tt (omega arith) refl refl (refl, tt)
