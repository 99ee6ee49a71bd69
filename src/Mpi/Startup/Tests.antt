-- ===== src/Mpi/Startup/Tests.antt =====
-- The theorems on `MPI_Init` of src/mpi.c at concrete inputs.
use neoos_libneoos.Mpi.Startup.Ranks.{told}
use neoos_libneoos.Mpi.Startup.Hellos.{heard}
use neoos_libneoos.Mpi.Collective.Ranks.{packets_with}
use neoos_libneoos.Mpi.Send.{send_raw, packet_for}
use neoos_libneoos.Mpi.Launch.{ranked, parse_rank_args}
use neoos_libneoos.Mpi.Startup.World.{outbox, init_of, Honest, IsStarting, init_holds, Processes}
use neoos_libneoos.Base.{
  zero, suc, ◌+◌, ◌<◌, ◌≡◌, Bool, ltb, get_elem?, get_elem?, ◌<◌, ltb, suc, ◌≡◌, Bool, false, none,
  ℕ, refl, arith, true, List, [], ◌∷◌,
}
use neoos_libneoos.Base.Int.{pos}
use neoos_libneoos.Mpi.Defs.{mpi_success, tag_go, Header, mpi_byte, tag_hello}
use neoos_libneoos.Mpi.Wire.{header_of, make_frame}
use neoos_libneoos.Mpi.State.{done, Mpi, Arrival, failed, datagram}
use neoos_libneoos.Mpi.Startup.{
  is_go, go_wait, meet, rendezvous, init_meet, shift_args, init_socket, InitEnd, Net, eagain,
  rendezvous_root, mpi_init,
}
use neoos_libneoos.Mpi.Startup.Root.{Meeting, rendezvous_root-Meeting}

abbrev hello : ℕ → Header
hello r = record { src = pos r; tag = tag_hello; count = pos 1; type = mpi_byte }

-- Rank 2 is heard twice before rank 1.
abbrev inbox : List Arrival
inbox =
    datagram (make_frame (hello 2) (0 ∷ []))
    ∷ failed eagain
    ∷ datagram (make_frame (hello 2) (0 ∷ []))
    ∷ datagram (make_frame (hello 1) (0 ∷ []))
    ∷ []

abbrev state : Mpi
state = record {
  rank = pos 0;
  size = pos 3;
  sock = pos 3;
  ready = true;
  coll_seq = 0;
  pool = record {
    slot = λ _. record { next = none; msg = record { hdr = hello 0; body = [] } };
    used = λ _. false;
    head = none;
  };
  inbox = inbox;
  sent = [];
  takes = λ _ _. true;
  dropped = [];
}

rendezvous_root-Meeting_example : Meeting 3 state (rendezvous_root state)
rendezvous_root-Meeting_example =
    rendezvous_root-Meeting 3 state refl (omega arith) (λ sent p. refl)

-- A kernel that grants everything.
abbrev net : Net
net = record { socket = pos 3; bind = λ _. pos 0; get_flags = pos 2; set_flags = λ _. pos 0 }

-- `prog 0 3 x`, for rank 0 of 3.
abbrev args : List (List ℕ)
args = (112 ∷ 114 ∷ []) ∷ (48 ∷ []) ∷ (51 ∷ []) ∷ (120 ∷ []) ∷ []

-- Two ranks: `prog 0 2` hears the hello of `prog 1 2`, which gets its GO.
abbrev pair : ℕ → List Arrival
pair zero = datagram (make_frame (hello 1) (0 ∷ [])) ∷ []
pair (suc k) =
    datagram
      (make_frame (record { src = pos 0; tag = tag_go; count = pos 1; type = mpi_byte }) (0 ∷ []))
    ∷ []

abbrev started : ℕ → List (List ℕ)
started j = (112 ∷ []) ∷ ((48 + j) ∷ []) ∷ (50 ∷ []) ∷ []

abbrev world : Processes
world = record {
  net = λ _. net;
  args = started;
  state = λ j. record state { ready = false; inbox = pair j };
}

abbrev entered : ℕ → Bool
entered j = ltb j 2

world-IsStarting : IsStarting 2 world
unfolding parse_rank_args packets_with
world-IsStarting = record {
  at_most = omega arith;
  parsed = λ j lt. parsed j lt;
  fresh = λ j lt. refl;
  no_hello = λ j lt. refl;
  no_go = λ j lt. refl;
}
  where
    parsed : (j : ℕ) → j < 2 → parse_rank_args (started j) ≡ ranked j 2
    parsed zero lt = refl
    parsed (suc zero) lt = refl
    parsed (suc (suc k)) lt = absurd (omega arith)

world-Honest : Honest 2 world entered
unfolding mpi_init parse_rank_args packets_with heard told init_socket init_meet rendezvous meet
    rendezvous_root go_wait make_frame header_of is_go send_raw
world-Honest = record {
  hellos = λ j lt h. said j lt h;
  gos = λ i lt h. (0, omega arith, omega arith);
}
  where
    said :
        (j : ℕ)
        → j < 2
        → heard j (pair 0) ≡ true
        → 0 < packets_with tag_hello (outbox world entered j)
    said zero lt h = absurd (cc)
    said (suc zero) lt h = omega arith
    said (suc (suc k)) lt h = absurd (omega arith)

abbrev after : Mpi
after = record state {
  rank = pos 1;
  size = pos 2;
  inbox = [];
  sent =
      packet_for (record state { rank = pos 1 }) (pos 0) tag_hello mpi_byte (pos 1) (0 ∷ []) ∷ [];
}

abbrev end : InitEnd
end = record {
  code = mpi_success;
  argc = 1;
  argv = shift_args 3 (get_elem? (started 1));
  closed = none;
}

returned : init_of world 1 ≡ done end after
unfolding mpi_init parse_rank_args init_socket init_meet rendezvous meet go_wait make_frame
    header_of is_go send_raw
returned = refl

init_holds_example : entered 0 ≡ true
init_holds_example =
    init_holds 2 world entered world-IsStarting world-Honest 1 end after (omega arith) refl returned
      refl 0 (omega arith)
