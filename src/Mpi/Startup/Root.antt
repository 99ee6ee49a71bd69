-- ===== src/Mpi/Startup/Root.antt =====
-- The rendezvous of src/mpi.c at rank 0: no GO before all hellos.
use neoos_libneoos.Mpi.Receive.{eintr}
use neoos_libneoos.Base.{
  ◌≢◌, map, sym, ℕ, zero, suc, ◌+◌, ◌-◌, ◌<◌, ◌≡◌, refl, ap, ◌∙◌, arith, true, false, ◌==◌, List,
  [], ◌∷◌, ◌++◌, if◌then◌else◌,
}
use neoos_libneoos.Base.Int.{ℤ, pos, pos_part}
use neoos_libneoos.Base.Census.{census}
use neoos_libneoos.Mpi.Defs.{mpi_byte, tag_go, mpi_success, mpi_err_intern}
use neoos_libneoos.Mpi.State.{
  failed, bind_done, bind_waiting, Packet, Arrival, Mpi, Run, done, waiting,
}
use neoos_libneoos.Mpi.Send.{packet_for, send_raw}
use neoos_libneoos.Mpi.Send.Laws.{sent_state}
use neoos_libneoos.Mpi.Collective.Broadcast.{others, onto}
use neoos_libneoos.Mpi.Startup.{eagain, hello_loop, send_token, go_loop, rendezvous_root}
use neoos_libneoos.Mpi.Startup.Hellos.{
  heard, missing, Hellos, complete, fails, polls, hello_loop-Hellos,
}

all_but_first : (n : ℕ) → census missing (suc n) (λ i. i == 0) ≡ n
unfolding census
all_but_first zero = refl
all_but_first (suc n) = ground (arith, all_but_first n)

-- The ranks to be heard at the start.
pub unseen : (n : ℕ) → 0 < n → census missing n (λ i. i == 0) ≡ n - 1
unseen zero h = absurd (omega arith)
unseen (suc n) h = all_but_first n ∙ omega arith

send_token-taken :
    (r tag : ℤ) (st : Mpi)
    → st.takes st.sent (packet_for st r tag mpi_byte (pos 1) (0 ∷ [])) ≡ true
    → send_token r tag st ≡ sent_state (packet_for st r tag mpi_byte (pos 1) (0 ∷ [])) st
unfolding send_token send_raw
send_token-taken r tag st h = rw h refl

-- The GO for a rank.
abbrev pub go_packet : Mpi → ℕ → Packet
go_packet st j = packet_for st (pos j) tag_go mpi_byte (pos 1) (0 ∷ [])

go_loop-others :
    (k i : ℕ) (st : Mpi)
    → 0 < i
    → ((sent : List Packet) (p : Packet) → st.takes sent p ≡ true)
    → go_loop k i st ≡ record st { sent = onto (map (go_packet st) (others 0 k i)) st.sent }
unfolding go_loop
go_loop-others zero i st h taken = refl
go_loop-others (suc k) i st h taken =
    let not_first : (i == 0) ≡ false = ground arith in
    rw (not_first, send_token-taken (pos i) tag_go st (taken _ _))
      (go_loop-others k (i + 1) (sent_state (go_packet st i) st) (omega arith) taken)

-- How the rendezvous ends at rank 0 of `n` ranks.
pub data Meeting (n : ℕ) (st : Mpi) (r : Run ℕ) : Type 0 where
  meets :
      (before rest : List Arrival)
      → st.inbox ≡ before ++ rest
      → ((j : ℕ) → 0 < j → j < n → heard j before ≡ true)
      → r
        ≡ done mpi_success (record st {
          inbox = rest;
          sent = onto (map (go_packet st) (others 0 (n - 1) 1)) st.sent;
        })
      → Meeting n st r
  breaks :
      (e : ℕ) (before rest : List Arrival) (j : ℕ)
      → st.inbox ≡ before ++ failed e ∷ rest
      → e ≢ eagain
      → e ≢ eintr
      → 0 < j
      → j < n
      → heard j before ≡ false
      → r ≡ done mpi_err_intern (record st { inbox = rest })
      → Meeting n st r
  polls_on :
      (j : ℕ)
      → 0 < j
      → j < n
      → heard j st.inbox ≡ false
      → r ≡ waiting (record st { inbox = [] })
      → Meeting n st r

-- At rank 0, with a kernel that takes datagrams, the rendezvous sends nothing before the hellos of all
-- other ranks have come in, and then one GO to each of them, in their order; before that it ends only
-- with MPI_ERR_INTERN at an error of `recvfrom` other than EAGAIN and EINTR, or polls on, and in both
-- cases some rank is still to be heard.
pub rendezvous_root-Meeting :
    (n : ℕ) (st : Mpi)
    → st.size ≡ pos n
    → 0 < n
    → ((sent : List Packet) (p : Packet) → st.takes sent p ≡ true)
    → Meeting n st (rendezvous_root st)
unfolding rendezvous_root
rendezvous_root-Meeting n st sized some_rank taken =
    conclude
      (hello_loop-Hellos n st sized st.inbox (λ i. i == 0) k (unseen n some_rank ∙ sym count))
  where
    k : ℕ
    k = pos_part st.size - 1

    count : k ≡ n - 1
    count = ap (λ z. pos_part z - 1) sized

    -- What follows the loop.
    follow : ℕ → Mpi → Run ℕ
    follow rc st' = if rc == mpi_success then done mpi_success (go_loop k 1 st') else done rc st'

    conclude :
        Hellos n st.inbox (λ i. i == 0) st (hello_loop st.inbox (λ i. i == 0) k st)
        → Meeting n st (rendezvous_root st)
    conclude (complete before rest split run all) =
        meets before rest split (λ j p lt. all j lt (ground arith))
          (bind_done (hello_loop st.inbox (λ i. i == 0) k) follow st (record st { inbox = rest })
              run
            ∙ ap (λ st'. done mpi_success st')
                (go_loop-others k 1 (record st { inbox = rest }) (omega arith) taken
                  ∙ ap
                      (λ c. record st {
                        inbox = rest;
                        sent = onto (map (go_packet st) (others 0 c 1)) st.sent;
                      })
                      count))
    conclude (fails e before rest j split again int lt s silent run) =
        breaks e before rest j split again int (ground arith) lt silent (
          bind_done (hello_loop st.inbox (λ i. i == 0) k) follow st (record st { inbox = rest })
            run)
    conclude (polls j lt s silent run) = polls_on j (ground arith) lt silent (
        bind_waiting (hello_loop st.inbox (λ i. i == 0) k) follow st (record st { inbox = [] }) run)
