-- ===== src/Mpi/Startup.antt =====
-- `MPI_Init`, `try_recv` and `rendezvous` of src/mpi.c. The kernel's answers to `socket`, `bind` and
-- `fcntl` are a parameter; `yield` changes nothing that the process sees.
pub mod Hellos
pub mod Root
pub mod Args
pub mod Frame
pub mod Ends
pub mod Ranks
pub mod Passed
pub mod World
mod Tests
use neoos_libneoos.Base.{
  ℕ, zero, suc, ◌+◌, ◌-◌, ◌*◌, ◌/◌, ◌%◌, ◌^◌, ◌==◌, Bool, true, false, not, ◌&&◌, ◌||◌, Option,
  none, some, List, [], ◌∷◌, if◌then◌else◌, leb, length, get_elem?,
}
use neoos_libneoos.Base.Int.{ℤ, pos, negsuc, minus, eqb_ℤ, ltb_ℤ, leb_ℤ, pos_part}
use neoos_libneoos.Base.Census.{put}
use neoos_libneoos.Mpi.Defs.{
  neqb_ℤ, mpi_success, mpi_err_other, mpi_err_intern, mpi_byte, tag_hello, tag_go,
}
use neoos_libneoos.Mpi.State.{
  Arrival, failed, datagram, Address, addr_for_rank, Mpi, Run, done, waiting, undefined,
  out_of_fuel, ◌>>=◌, pure,
}
use neoos_libneoos.Mpi.Wire.{header_size, header_of}
use neoos_libneoos.Mpi.Send.{send_raw}
use neoos_libneoos.Mpi.Receive.{eintr}
use neoos_libneoos.Mpi.Launch.{Ranked, refused, ranked, parse_rank_args}

-- What `socket(AF_INET, SOCK_DGRAM, 0)`, `bind` to an address, `fcntl(F_GETFL)` and `fcntl(F_SETFL, …)`
-- return.
pub record Net : Type 0 where
  pub socket : ℤ
  pub bind : Address → ℤ
  pub get_flags : ℤ
  pub set_flags : ℤ → ℤ

-- EAGAIN
abbrev pub eagain : ℕ
eagain = 11

-- `try_recv`: the datagram, which is empty if nothing was waiting, or no result for a real error. The
-- kernel cuts a datagram to the 24 bytes of `frame`, which hold its header.
unfoldable pub try_recv : Arrival → Option (List ℕ)
try_recv (failed e) = if (e == eagain) || (e == eintr) then some [] else none
try_recv (datagram f) = some f

-- A call of `send_raw` whose result nobody looks at.
abbrev pub after : Run ℕ → Mpi → Mpi
after (done rc st') st = st'
after _ st = st

-- `send_raw(r, tag, MPI_BYTE, 1, &token, 1)`
unfoldable pub send_token : ℤ → ℤ → Mpi → Mpi
send_token r tag st = after (send_raw r tag mpi_byte (pos 1) (0 ∷ []) st) st

-- The test on a frame in the loop of rank 0.
unfoldable pub is_hello : List ℕ → ℤ → (ℕ → Bool) → Bool
is_hello f size seen =
    leb header_size (length f)
    && eqb_ℤ (header_of f).tag tag_hello
    && leb_ℤ (pos 0) (header_of f).src
    && ltb_ℤ (header_of f).src size
    && not (seen (pos_part (header_of f).src))

-- The `while (remaining > 0)` of rank 0, on what `recvfrom` will answer. When that is used up, it polls.
unfoldable pub hello_loop : List Arrival → (ℕ → Bool) → ℕ → Mpi → Run ℕ
unfolding try_recv is_hello
hello_loop arrivals seen zero st = done mpi_success (record st { inbox = arrivals })
hello_loop [] seen (suc remaining) st = waiting (record st { inbox = [] })
hello_loop (a ∷ arrivals) seen (suc remaining) st = elim (try_recv a) [
  | none ↦ done mpi_err_intern (record st { inbox = arrivals })
  | some f ↦ elim (is_hello f st.size seen) [
    | true ↦ hello_loop arrivals (put seen (pos_part (header_of f).src) true) remaining st
    | false ↦ hello_loop arrivals seen (suc remaining) st
  ]
]

-- The loop that sends GO to `k` more ranks, from rank `r` on.
unfoldable pub go_loop : ℕ → ℕ → Mpi → Mpi
unfolding send_token
go_loop zero r st = st
go_loop (suc k) r st = go_loop k (r + 1) (send_token (pos r) tag_go st)

-- The part of rank 0 in `rendezvous`.
unfoldable pub rendezvous_root : Mpi → Run ℕ
unfolding hello_loop go_loop
rendezvous_root st =
    let others = pos_part st.size - 1 in
    (hello_loop st.inbox (λ i. i == 0) others >>= λ rc st'.
    if rc == mpi_success then done mpi_success (go_loop others 1 st') else done rc st')
      st

-- The hello that the other ranks send in every 64th round of their loop.
unfoldable pub say_hello : ℕ → Mpi → Mpi
unfolding send_token
say_hello since_hello st = if since_hello == 0 then send_token (pos 0) tag_hello st else st

-- The test on a frame in their loop.
unfoldable pub is_go : List ℕ → Bool
is_go f = leb header_size (length f) && eqb_ℤ (header_of f).tag tag_go

-- The `while (!acked)` of the other ranks.
unfoldable pub go_wait : List Arrival → ℕ → Mpi → Run ℕ
unfolding try_recv say_hello is_go
go_wait [] since_hello st = waiting (record (say_hello since_hello st) { inbox = [] })
go_wait (a ∷ arrivals) since_hello st =
    let st' = say_hello since_hello st in
    elim (try_recv a) [
      | none ↦ done mpi_err_intern (record st' { inbox = arrivals })
      | some f ↦ elim (is_go f) [
        | true ↦ done mpi_success (record st' { inbox = arrivals })
        | false ↦ go_wait arrivals ((since_hello + 1) % 64) st'
      ]
    ]

-- O_NONBLOCK is bit 11; flags that are not negative.
unfoldable pub with_nonblock : ℤ → ℤ
with_nonblock flags =
    let n = pos_part flags in if n / 2 ^ 11 % 2 == 0 then pos (n + 2 ^ 11) else flags

-- The part of `rendezvous` between the two calls that change the flags.
unfoldable pub meet : Mpi → Run ℕ
unfolding rendezvous_root go_wait
meet st = if eqb_ℤ st.rank (pos 0) then rendezvous_root st else go_wait st.inbox 0 st

-- `rendezvous`
unfoldable pub rendezvous : Net → Mpi → Run ℕ
unfolding meet with_nonblock
rendezvous net st =
    if eqb_ℤ st.size (pos 1)
    then done mpi_success st
    else if ltb_ℤ net.get_flags (pos 0)
    then done mpi_err_intern st
    else if neqb_ℤ (net.set_flags (with_nonblock net.get_flags)) (pos 0)
    then done mpi_err_intern st
    else (meet >>= λ rc st'.
          if not (rc == mpi_success)
          then done rc st'
          else if neqb_ℤ (net.set_flags net.get_flags) (pos 0)
          then done mpi_err_intern st'
          else done mpi_success st')
        st

-- What the pointers of `argv` lead to; a null pointer is `none`.
abbrev pub Argv : Type 0
Argv = ℕ → Option (List ℕ)

-- The loop of `MPI_Init` over `argv`: `k` rounds are left, from `i` on.
unfoldable pub shift_loop : ℕ → ℕ → Argv → Argv
shift_loop zero i v = v
shift_loop (suc k) i v = shift_loop k (i + 1) (put v (i - 2) (v i))

-- `v[1] = v[0]` and the loop, for `argc` of at least 3.
unfoldable pub shift_args : ℕ → Argv → Argv
unfolding shift_loop
shift_args argc v = shift_loop (argc - 2) 3 (put v 1 (v 0))

-- What `MPI_Init` returns, `*argc` and `*argv` afterwards, and the descriptor that it closed, if any.
pub record InitEnd : Type 0 where
  pub code : ℕ
  pub argc : ℕ
  pub argv : Argv
  pub closed : Option ℤ

-- The end of `MPI_Init`, from `mpi_ready = 1` on.
unfoldable pub init_meet : Net → ℕ → Argv → Mpi → Run InitEnd
unfolding rendezvous
init_meet net argc argv st =
    (rendezvous net >>= λ rc st'.
    if rc == mpi_success
    then done (record { code = mpi_success; argc = argc; argv = argv; closed = none }) st'
    else done (record { code = rc; argc = argc; argv = argv; closed = some st'.sock })
        (record st' { sock = minus 1; ready = false }))
      (record st { ready = true })

-- A return of `MPI_Init` before it touches `argv`.
abbrev pub init_fails : ℕ → List (List ℕ) → Option ℤ → InitEnd
init_fails code args closed = record {
  code = code;
  argc = length args;
  argv = get_elem? args;
  closed = closed;
}

-- The part of `MPI_Init` from the call of `socket` on.
unfoldable pub init_socket : Net → List (List ℕ) → Mpi → Run InitEnd
unfolding init_meet shift_args
init_socket net args st =
    let argc = length args in
    if ltb_ℤ net.socket (pos 0)
    then done (init_fails mpi_err_intern args none) (record st { sock = net.socket })
    else if neqb_ℤ (net.bind (addr_for_rank st.rank)) (pos 0)
    then done (init_fails mpi_err_intern args (some net.socket)) (record st { sock = minus 1 })
    else if leb 3 argc
    then init_meet net (argc - 2) (shift_args argc (get_elem? args))
        (record st { sock = net.socket })
    else init_meet net argc (get_elem? args) (record st { sock = net.socket })

-- `MPI_Init` on the strings of `argv`; `none` is a null pointer for `argc` or `argv`.
unfoldable pub mpi_init : Net → Option (List (List ℕ)) → Mpi → Run InitEnd
unfolding init_socket parse_rank_args
mpi_init net none st =
    done (record { code = mpi_err_other; argc = 0; argv = λ _. none; closed = none }) st
mpi_init net (some args) st =
    if st.ready then done (init_fails mpi_err_other args none) st else elim (parse_rank_args args) [
      | refused ↦ done (init_fails mpi_err_other args none) st
      | Ranked.undefined ↦ undefined
      | ranked r n ↦ init_socket net args (record st { rank = pos r; size = pos n })
    ]
