-- ===== src/Mpi/Startup/Ranks.antt =====
-- What the ranks of src/mpi.c send in the rendezvous, and what they have heard when they leave it.
use neoos_libneoos.Mpi.Startup.Root.{unseen}
use neoos_libneoos.Mpi.Receive.{eintr}
use neoos_libneoos.Mpi.Startup.Frame.{say_hello-Same, send_token-Same}
use neoos_libneoos.Mpi.Defs.{mpi_err_intern, mpi_byte, tag_hello, mpi_success, tag_go}
use neoos_libneoos.Mpi.Send.{packet_for, send_raw}
use neoos_libneoos.Mpi.Startup.Hellos.{hello_loop-Hellos, polls, fails, complete, Hellos, heard}
use neoos_libneoos.Base.{
  ℕ, zero, suc, ◌+◌, ◌-◌, ◌%◌, ◌<◌, ◌≡◌, ◌≢◌, refl, sym, ◌∙◌, ap, subst, arith, Bool, true, false,
  ◌||◌, ◌==◌, List, [], ◌∷◌, ◌++◌, if◌then◌else◌, Bool-cases, ◌⊎◌, inl, inr,
}
use neoos_libneoos.Base.Int.{ℤ, pos, pos_part, IsInt}
use neoos_libneoos.Mpi.State.{
  bind_waiting, bind_done, ends_apart, waiting-done, ◌>>=◌, Arrival, failed, datagram, Mpi, Packet,
  Run, done,
}
use neoos_libneoos.Mpi.Startup.{
  eagain, try_recv, send_token, say_hello, is_go, go_wait, go_loop, hello_loop, rendezvous_root,
}
use neoos_libneoos.Mpi.Collective.Ranks.{packets_with, sent_by, packet_for-tag, packets_with-skip}

-- Whether a GO is among the answers.
unfoldable pub told : List Arrival → Bool
told [] = false
told (failed e ∷ arrivals) = told arrivals
told (datagram f ∷ arrivals) = is_go f || told arrivals

heard-prefix :
    (j : ℕ) (before rest : List Arrival) → heard j before ≡ true → heard j (before ++ rest) ≡ true
unfolding heard
heard-prefix j [] rest h = cc
heard-prefix j (a ∷ before) rest h = ground (arith, heard-prefix j before rest)

send_token-packets :
    (r tag t : ℤ) (st : Mpi)
    → IsInt st.rank
    → IsInt tag
    → tag ≢ t
    → packets_with t (send_token r tag st).sent ≡ packets_with t st.sent
unfolding send_token send_raw
send_token-packets r tag t st rank it ne =
    let p = packet_for st r tag mpi_byte (pos 1) (0 ∷ []) in
    let e = packet_for-tag st r tag mpi_byte (pos 1) (0 ∷ []) rank it (omega arith) (omega arith) in
    elim (Bool-cases (st.takes st.sent p)) [
      | inl y ↦ rw y (packets_with-skip t p st.sent (λ e'. ne (sym e ∙ e')))
      | inr other ↦ rw other refl
    ]

go_loop-packets :
    (k r : ℕ) (t : ℤ) (st : Mpi)
    → IsInt st.rank
    → tag_go ≢ t
    → packets_with t (go_loop k r st).sent ≡ packets_with t st.sent
unfolding go_loop
go_loop-packets zero r t st rank ne = refl
go_loop-packets (suc k) r t st rank ne =
    go_loop-packets k (r + 1) t (send_token (pos r) tag_go st)
      (subst IsInt (sym (send_token-Same (pos r) tag_go st).rank) rank) ne
    ∙ send_token-packets (pos r) tag_go t st rank (omega arith) ne

-- What another rank than 0 does: it sends no GO, and leaves with success only after it was told one.
pub record OtherMeets (st : Mpi) (arrivals : List Arrival) (r : Run ℕ) : Type 0 where
  pub no_go :
      (old : List Packet) → packets_with tag_go (sent_by r old) ≡ packets_with tag_go st.sent
  pub was_told : (st' : Mpi) → r ≡ done mpi_success st' → told arrivals ≡ true

say_hello-packets :
    (since : ℕ) (st : Mpi)
    → IsInt st.rank
    → packets_with tag_go (say_hello since st).sent ≡ packets_with tag_go st.sent
unfolding say_hello
say_hello-packets since st rank = elim (Bool-cases (since == 0)) [
  | inl y ↦ rw y (
      send_token-packets (pos 0) tag_hello tag_go st rank (omega arith)
        (λ e. let e' = ap pos_part e in omega arith))
  | inr other ↦ rw other refl
]

-- A round that goes on.
next-OtherMeets :
    (arrivals all : List Arrival) (st st' : Mpi) (r r' : Run ℕ)
    → r' ≡ r
    → packets_with tag_go st'.sent ≡ packets_with tag_go st.sent
    → (told arrivals ≡ true → told all ≡ true)
    → OtherMeets st' arrivals r
    → OtherMeets st all r'
next-OtherMeets arrivals all st st' r r' e same more h = record {
  no_go = λ old. ap (λ (x : Run ℕ). packets_with tag_go (sent_by x old)) e ∙ h.no_go old ∙ same;
  was_told = λ st₁ run. more (h.was_told st₁ (sym e ∙ run));
}

go_wait-nothing :
    (e since : ℕ) (arrivals : List Arrival) (st : Mpi)
    → ((e == eagain) || (e == eintr)) ≡ true
    → go_wait (failed e ∷ arrivals) since st
      ≡ go_wait arrivals ((since + 1) % 64) (say_hello since st)
unfolding go_wait try_recv is_go
go_wait-nothing e since arrivals st h = rw (h, go_wait) refl

go_wait-error :
    (e since : ℕ) (arrivals : List Arrival) (st : Mpi)
    → ((e == eagain) || (e == eintr)) ≡ false
    → go_wait (failed e ∷ arrivals) since st
      ≡ done mpi_err_intern (record (say_hello since st) { inbox = arrivals })
unfolding go_wait try_recv
go_wait-error e since arrivals st h = rw (h, go_wait) refl

go_wait-go :
    (f : List ℕ) (since : ℕ) (arrivals : List Arrival) (st : Mpi)
    → is_go f ≡ true
    → go_wait (datagram f ∷ arrivals) since st
      ≡ done mpi_success (record (say_hello since st) { inbox = arrivals })
unfolding go_wait try_recv
go_wait-go f since arrivals st h = rw (h, go_wait) refl

-- Any other datagram that comes before the GO is read and forgotten.
go_wait-other :
    (f : List ℕ) (since : ℕ) (arrivals : List Arrival) (st : Mpi)
    → is_go f ≡ false
    → go_wait (datagram f ∷ arrivals) since st
      ≡ go_wait arrivals ((since + 1) % 64) (say_hello since st)
unfolding go_wait try_recv
go_wait-other f since arrivals st h = rw (h, go_wait) refl

pub go_wait-OtherMeets :
    (arrivals : List Arrival) (since : ℕ) (st : Mpi)
    → IsInt st.rank
    → OtherMeets st arrivals (go_wait arrivals since st)
unfolding told
go_wait-OtherMeets [] since st rank =
    unfold go_wait in
    record {
      no_go = λ old. say_hello-packets since st rank;
      was_told = λ st' e. absurd (waiting-done e);
    }
go_wait-OtherMeets (failed e ∷ arrivals) since st rank =
    elim (Bool-cases ((e == eagain) || (e == eintr))) [
      | inl nothing ↦
          next-OtherMeets arrivals (failed e ∷ arrivals) st (say_hello since st) _ _
            (go_wait-nothing e since arrivals st nothing) (say_hello-packets since st rank) (λ h. h)
            (go_wait-OtherMeets arrivals ((since + 1) % 64) (say_hello since st)
              (subst IsInt (sym (say_hello-Same since st).rank) rank))
      | inr error ↦ rw (go_wait-error e since arrivals st error) (record {
        no_go = λ old. say_hello-packets since st rank;
        was_told = λ st' run. absurd (ends_apart (ground arith) run);
      })
    ]
go_wait-OtherMeets (datagram f ∷ arrivals) since st rank = elim (Bool-cases (is_go f)) [
  | inl go ↦ rw (go_wait-go f since arrivals st go) (record {
    no_go = λ old. say_hello-packets since st rank;
    was_told = λ st' run. ground (arith, go);
  })
  | inr other ↦
      next-OtherMeets arrivals (datagram f ∷ arrivals) st (say_hello since st) _ _
        (go_wait-other f since arrivals st other) (say_hello-packets since st rank)
        (λ h. ground (arith, h))
        (go_wait-OtherMeets arrivals ((since + 1) % 64) (say_hello since st)
          (subst IsInt (sym (say_hello-Same since st).rank) rank))
]

-- What rank 0 does: it sends no hello, and it either has heard all others, or sends nothing and does not
-- leave with success.
pub record RootMeets (n : ℕ) (st : Mpi) (r : Run ℕ) : Type 0 where
  pub no_hello :
      (old : List Packet) → packets_with tag_hello (sent_by r old) ≡ packets_with tag_hello st.sent
  pub outcome :
      ((j : ℕ) → 0 < j → j < n → heard j st.inbox ≡ true)
      ⊎ (((old : List Packet) → sent_by r old ≡ st.sent) × ((st' : Mpi) → r ≢ done mpi_success st'))

pub rendezvous_root-RootMeets :
    (n : ℕ) (st : Mpi)
    → st.size ≡ pos n
    → 0 < n
    → IsInt st.rank
    → RootMeets n st (rendezvous_root st)
unfolding rendezvous_root
rendezvous_root-RootMeets n st sized some_rank rank = from (
    hello_loop-Hellos n st sized st.inbox (λ i. i == 0) k
      (unseen n some_rank ∙ ap (λ z. pos_part z - 1) (sym sized)))
  where
    k : ℕ
    k = pos_part st.size - 1

    hellos : Mpi → Run ℕ
    hellos = hello_loop st.inbox (λ i. i == 0) k

    follow : ℕ → Mpi → Run ℕ
    follow rc st' = if rc == mpi_success then done mpi_success (go_loop k 1 st') else done rc st'

    from : Hellos n st.inbox (λ i. i == 0) st (hellos st) → RootMeets n st ((hellos >>= follow) st)
    from (complete before rest split run all) =
        rw (bind_done hellos follow st (record st { inbox = rest }) run) (record {
          no_hello = λ old.
              go_loop-packets k 1 tag_hello (record st { inbox = rest }) rank
                (λ e. let e' = ap pos_part e in omega arith);
          outcome =
              inl (λ j p lt.
                ap (heard j) split ∙ heard-prefix j before rest (all j lt (ground arith)));
        })
    from (fails e before rest j split again int lt s silent run) =
        rw (bind_done hellos follow st (record st { inbox = rest }) run) (record {
          no_hello = λ old. refl;
          outcome = inr (λ old. refl, λ st' e. ends_apart (ground arith) e);
        })
    from (polls j lt s silent run) =
        rw (bind_waiting hellos follow st (record st { inbox = [] }) run)
          (record { no_hello = λ old. refl; outcome = inr (λ old. refl, λ st' e. waiting-done e) })
