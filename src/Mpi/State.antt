-- ===== src/Mpi/State.antt =====
-- The static variables of src/mpi.c and what the process sees of the network. The kernel is not part
-- of the program: what `recvfrom` will answer is the list `inbox`, and whether it takes a datagram is
-- the function `takes` of all that was sent before.
use neoos_libneoos.Base.{arith, true, ◌==◌, ◌≢◌, ◌≡◌, refl, ℕ, ◌+◌, ◌%◌, ◌^◌, Bool, List}
use neoos_libneoos.Base.Int.{ℤ, word32}
use neoos_libneoos.Socket.Order.{htons, htonl}
use neoos_libneoos.Mpi.Defs.{mpi_success, Header, mpi_port_base}
use neoos_libneoos.Mpi.Pending.{Pool}

-- An answer of `recvfrom`: a negative errno, or a datagram as the kernel wrote it into the buffer.
pub data Arrival : Type 0 where
  failed : ℕ → Arrival
  datagram : List ℕ → Arrival

-- `struct sockaddr_in`
pub record Address : Type 0 where
  pub family : ℕ
  pub port : ℕ
  pub addr : ℕ

-- One call of `sendto` on `mpi_sock`.
pub record Packet : Type 0 where
  pub to : Address
  pub frame : List ℕ

pub record Mpi : Type 0 where
  pub rank : ℤ  -- mpi_rank
  pub size : ℤ  -- mpi_size
  pub sock : ℤ  -- mpi_sock
  pub ready : Bool  -- mpi_ready
  pub coll_seq : ℕ  -- uint32_t
  pub pool : Pool
  pub inbox : List Arrival
  pub sent : List Packet  -- the latest first
  pub takes : List Packet → Packet → Bool
  pub dropped : List Header  -- the messages reported as DROPPED, the latest first

-- A call that returns, or that blocks in `recvfrom` with nothing left to receive. `undefined`: a
-- product of two `int`s overflowed, which C leaves undefined. `out_of_fuel`: a walk along the
-- unexpected queue, or a loop that waits for other ranks, used up the rounds that the model gives it.
pub data Run (A : Type 0) : Type 0 where
  done : A → Mpi → Run A
  waiting : Mpi → Run A
  undefined : Run A
  out_of_fuel : Run A

infixl 5 ◌>>=◌
abbrev pub ◌>>=◌ : {A B : Type 0} → (Mpi → Run A) → (A → Mpi → Run B) → Mpi → Run B
◌>>=◌ m k st = elim (m st) [
  | done a st' ↦ k a st'
  | waiting st' ↦ waiting st'
  | undefined ↦ undefined
  | out_of_fuel ↦ out_of_fuel
]

abbrev pub pure : {A : Type 0} → A → Mpi → Run A
pure a st = done a st

module _ {A B : Type 0} (m : Mpi → Run A) (k : A → Mpi → Run B) (st st' : Mpi) where
  pub bind_done : {a : A} → m st ≡ done a st' → (m >>= k) st ≡ k a st'
  bind_done h = rw (h, ◌>>=◌) refl

  pub bind_waiting : m st ≡ waiting st' → (m >>= k) st ≡ waiting st'
  bind_waiting h = rw (h, ◌>>=◌) refl

-- Runs that end differently.
pub ends_apart : {a b : Mpi} {m n : ℕ} → m ≢ n → done m a ≢ done n b
ends_apart apart e = apart cc

pub waiting-done : {n : ℕ} {a b : Mpi} → waiting a ≢ done n b
waiting-done e = cc

pub undefined-done : {n : ℕ} {b : Mpi} → undefined ≢ done n b
undefined-done e = cc

pub is_success : (rc : ℕ) → (rc == mpi_success) ≡ true → rc ≡ mpi_success
is_success rc h = ground arith

-- AF_INET and INADDR_LOOPBACK
abbrev pub af_inet : ℕ
af_inet = 2

abbrev pub inaddr_loopback : ℕ
inaddr_loopback = 0x7F000001

-- `addr_for_rank`; the sum is cut to a uint16_t.
unfoldable pub addr_for_rank : ℤ → Address
addr_for_rank rank = record {
  family = af_inet;
  port = htons ((mpi_port_base + word32 rank) % 2 ^ 16);
  addr = htonl inaddr_loopback;
}
