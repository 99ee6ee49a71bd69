-- ===== src/Mpi/Startup/Frame.antt =====
-- The rendezvous of src/mpi.c returns or blocks, and leaves the rank, the size, the socket and the flag
-- alone.
use neoos_libneoos.Base.{
  ℕ, zero, suc, ◌+◌, ◌-◌, ◌%◌, ◌≡◌, refl, ◌∙◌, arith, Bool, true, false, not, ◌==◌, Option, none,
  some, List, [], ◌∷◌, if◌then◌else◌,
}
use neoos_libneoos.Base.Int.{eqb_ℤ, pos_part, ℤ, pos, ltb_ℤ}
use neoos_libneoos.Base.Census.{put}
use neoos_libneoos.Mpi.Defs.{tag_go, mpi_err_intern, tag_hello, neqb_ℤ, mpi_success}
use neoos_libneoos.Mpi.State.{◌>>=◌, Arrival, Mpi, Run, done, waiting, bind_done, bind_waiting}
use neoos_libneoos.Mpi.Wire.{header_of}
use neoos_libneoos.Mpi.Send.{send_raw}
use neoos_libneoos.Mpi.Startup.{
  with_nonblock, Net, try_recv, is_hello, is_go, send_token, say_hello, hello_loop, go_loop,
  go_wait, rendezvous_root, meet, rendezvous,
}

-- What the exchange of messages leaves alone.
pub record Same (st st' : Mpi) : Type 0 where
  pub rank : st'.rank ≡ st.rank
  pub size : st'.size ≡ st.size
  pub sock : st'.sock ≡ st.sock
  pub ready : st'.ready ≡ st.ready

Same-trans : (a b c : Mpi) → Same a b → Same b c → Same a c
Same-trans a b c h k = record {
  rank = k.rank ∙ h.rank;
  size = k.size ∙ h.size;
  sock = k.sock ∙ h.sock;
  ready = k.ready ∙ h.ready;
}

-- A run that returns or blocks, in such a state.
pub data Keeps (st : Mpi) (r : Run ℕ) : Type 0 where
  returns : (rc : ℕ) (st' : Mpi) → r ≡ done rc st' → Same st st' → Keeps st r
  blocks : (st' : Mpi) → r ≡ waiting st' → Same st st' → Keeps st r

pub Same-refl : (st : Mpi) → Same st st
Same-refl st = record { rank = refl; size = refl; sock = refl; ready = refl }

inbox-Same : (a b : Mpi) (rest : List Arrival) → Same a b → Same a (record b { inbox = rest })
inbox-Same a b rest h = record { rank = h.rank; size = h.size; sock = h.sock; ready = h.ready }

pub send_token-Same : (r tag : ℤ) (st : Mpi) → Same st (send_token r tag st)
unfolding send_token send_raw
send_token-Same r tag st = ground arith

pub say_hello-Same : (since : ℕ) (st : Mpi) → Same st (say_hello since st)
unfolding say_hello
say_hello-Same since st = ground (arith, send_token-Same (pos 0) tag_hello st)

-- A loop that goes on in a state that is the same.
Keeps-from : (a b : Mpi) (r : Run ℕ) → Same a b → Keeps b r → Keeps a r
Keeps-from a b r h (returns rc c e k) = returns rc c e (Same-trans a b c h k)
Keeps-from a b r h (blocks c e k) = blocks c e (Same-trans a b c h k)

-- A bind whose second part keeps what the first left.
bind-Keeps :
    (m : Mpi → Run ℕ) (k : ℕ → Mpi → Run ℕ) (st : Mpi)
    → Keeps st (m st)
    → ((rc : ℕ) (st' : Mpi) → Keeps st' (k rc st'))
    → Keeps st ((m >>= k) st)
bind-Keeps m k st (returns rc st' e h) second =
    rw (bind_done m k st st' e) (Keeps-from st st' (k rc st') h (second rc st'))
bind-Keeps m k st (blocks st' e h) second = blocks st' (bind_waiting m k st st' e) h

if-Keeps :
    (b : Bool) (x y : Run ℕ) (st : Mpi) → Keeps st x → Keeps st y → Keeps st (if b then x else y)
if-Keeps true x y st p q = p
if-Keeps false x y st p q = q

return-Keeps :
    (rc : ℕ) (st : Mpi) (rest : List Arrival) → Keeps st (done rc (record st { inbox = rest }))
return-Keeps rc st rest = returns rc _ refl (inbox-Same st st rest (Same-refl st))

module _ (st : Mpi) (rest : List Arrival) where
  -- One round of a loop that gives up on an error of `recvfrom`.
  recv-Keeps :
      (o : Option (List ℕ)) (go : List ℕ → Run ℕ)
      → ((f : List ℕ) → Keeps st (go f))
      → Keeps st
          (elim o [ none ↦ done mpi_err_intern (record st { inbox = rest }) | some f ↦ go f ])
  recv-Keeps none go h = return-Keeps mpi_err_intern st rest
  recv-Keeps (some f) go h = h f

elim-Keeps :
    (b : Bool) (x y : Run ℕ) (st : Mpi)
    → Keeps st x
    → Keeps st y
    → Keeps st (elim b [ true ↦ x | false ↦ y ])
elim-Keeps true x y st p q = p
elim-Keeps false x y st p q = q

hello_loop-Keeps :
    (arrivals : List Arrival) (seen : ℕ → Bool) (remaining : ℕ) (st : Mpi)
    → Keeps st (hello_loop arrivals seen remaining st)
unfolding hello_loop
hello_loop-Keeps arrivals seen zero st = return-Keeps mpi_success st arrivals
hello_loop-Keeps [] seen (suc k) st = blocks _ refl (inbox-Same st st [] (Same-refl st))
hello_loop-Keeps (a ∷ arrivals) seen (suc k) st = recv-Keeps st arrivals (try_recv a) _ λ f.
    elim-Keeps (is_hello f st.size seen) _ _ st
      (hello_loop-Keeps arrivals (put seen (pos_part (header_of f).src) true) k st)
      (hello_loop-Keeps arrivals seen (suc k) st)

go_loop-Same : (k r : ℕ) (st : Mpi) → Same st (go_loop k r st)
unfolding go_loop
go_loop-Same zero r st = Same-refl st
go_loop-Same (suc k) r st =
    Same-trans st (send_token (pos r) tag_go st) _ (send_token-Same (pos r) tag_go st)
      (go_loop-Same k (r + 1) (send_token (pos r) tag_go st))

go_wait-Keeps :
    (arrivals : List Arrival) (since : ℕ) (st : Mpi) → Keeps st (go_wait arrivals since st)
unfolding go_wait
go_wait-Keeps [] since st =
    blocks _ refl (inbox-Same st (say_hello since st) [] (say_hello-Same since st))
go_wait-Keeps (a ∷ arrivals) since st =
    let st' = say_hello since st in
    Keeps-from st st' _ (say_hello-Same since st) (
      recv-Keeps st' arrivals (try_recv a) _ λ f.
        elim-Keeps (is_go f) _ _ st' (return-Keeps mpi_success st' arrivals)
          (go_wait-Keeps arrivals ((since + 1) % 64) st'))

rendezvous_root-Keeps : (st : Mpi) → Keeps st (rendezvous_root st)
unfolding rendezvous_root
rendezvous_root-Keeps st =
    let n = pos_part st.size - 1 in
    bind-Keeps (hello_loop st.inbox (λ i. i == 0) n) _ st
      (hello_loop-Keeps st.inbox (λ i. i == 0) n st)
      λ rc st'.
        if-Keeps (rc == mpi_success) _ _ st' (returns mpi_success _ refl (go_loop-Same n 1 st'))
          (returns rc st' refl (Same-refl st'))

pub meet-Keeps : (st : Mpi) → Keeps st (meet st)
unfolding meet
meet-Keeps st = if-Keeps _ _ _ st (rendezvous_root-Keeps st) (go_wait-Keeps st.inbox 0 st)

-- `rendezvous` returns or blocks, and leaves the rank, the size, the socket and the flag alone.
pub rendezvous-Keeps : (net : Net) (st : Mpi) → Keeps st (rendezvous net st)
unfolding rendezvous
rendezvous-Keeps net st =
    let stay = λ (rc : ℕ) (st : Mpi). returns rc st refl (Same-refl st) in
    if-Keeps (eqb_ℤ st.size (pos 1)) _ _ st (stay mpi_success st) (
      if-Keeps (ltb_ℤ net.get_flags (pos 0)) _ _ st (stay mpi_err_intern st) (
        if-Keeps (neqb_ℤ (net.set_flags (with_nonblock net.get_flags)) (pos 0)) _ _ st
          (stay mpi_err_intern st)
          (bind-Keeps meet _ st (meet-Keeps st) λ rc st'.
            if-Keeps (not (rc == mpi_success)) _ _ st' (stay rc st') (
              if-Keeps (neqb_ℤ (net.set_flags net.get_flags) (pos 0)) _ _ st'
                (stay mpi_err_intern st') (stay mpi_success st')))))
