-- ===== src/Mpi/Collective/Gather.antt =====
-- How rank 0 of src/mpi.c collects the tokens of a barrier, for any answers of the kernel.
use neoos_libneoos.Mpi.Receive.Arrive.{recv_match-Arrives, Arrives}
use neoos_libneoos.Base.{
  ℕ, zero, suc, ◌<◌, ◌≡◌, ◌≢◌, refl, sym, ◌∙◌, ap, subst, arith, true, false, not, ◌&&◌, ◌||◌, ◌==◌,
  none, List, [], ◌∷◌, ◌++◌, length, drop, ltb, if◌then◌else◌, Bool-cases, inl, inr, pass, Option,
}
use neoos_libneoos.Base.Int.{ℤ, pos, ltb_ℤ, leb_ℤ}
use neoos_libneoos.Mpi.Defs.{
  Message, any_source, neqb_ℤ, mpi_comm_world, mpi_byte, mpi_success, mpi_err_intern,
  mpi_err_truncate, type_size,
}
use neoos_libneoos.Mpi.Pending.Chain.{Cells, IsQueue}
use neoos_libneoos.Mpi.State.{
  Mpi, Run, done, waiting, undefined, out_of_fuel, bind_done, bind_waiting, pure,
}
use neoos_libneoos.Mpi.Receive.{
  Received, Receipt, Status, status_of, recv_match, finish_recv, mpi_recv,
}
use neoos_libneoos.Mpi.Receive.Accept.{
  at_hand, Untouched, Untouched-record, Untouched-trans, accepted,
}
use neoos_libneoos.Mpi.Collective.{gather_loop}

module _ (source tag : ℤ) where
  -- How the receive of one token ends.
  pub data TokenEnd (st : Mpi) (all : List Message) (r : Run Receipt) : Type 0 where
    arrives :
        (m : Message) (buf : List ℕ) (status : Option Status) (st' : Mpi) (ys : Cells)
        → r ≡ done (record { code = mpi_success; buf = buf; status = status }) st'
        → IsQueue st'.pool ys
        → Untouched st st'
        → accepted source tag all ≡ m ∷ accepted source tag (at_hand ys st')
        → TokenEnd st all r
    fails :
        (rc : ℕ) (buf : List ℕ) (status : Option Status) (st' : Mpi)
        → r ≡ done (record { code = rc; buf = buf; status = status }) st'
        → rc ≢ mpi_success
        → Untouched st st'
        → TokenEnd st all r
    waits :
        (st' : Mpi)
        → r ≡ waiting st'
        → Untouched st st'
        → accepted source tag all ≡ []
        → TokenEnd st all r

  -- What is left of `MPI_Recv` of one byte once its arguments have passed.
  abbrev matched : List ℕ → Run Received → Run Receipt
  matched token r = elim r [
    | done x st' ↦ finish_recv token (pos 1) 1 x st'
    | waiting st' ↦ waiting st'
    | undefined ↦ undefined
    | out_of_fuel ↦ out_of_fuel
  ]

  mpi_recv-matched :
      (token : List ℕ) (st : Mpi)
      → st.ready ≡ true
      → (neqb_ℤ source any_source && (ltb_ℤ source (pos 0) || leb_ℤ st.size source)) ≡ false
      → mpi_recv token (pos 1) mpi_byte source tag mpi_comm_world st
        ≡ matched token (recv_match source tag st)
  unfolding mpi_recv type_size
  mpi_recv-matched token st ready range =
      pass (not st.ready) _ (ground (arith, ready)) (pass _ _ range refl)

  matched-TokenEnd :
      (token : List ℕ) (st : Mpi) (all : List Message) (r : Run Received)
      → Arrives source tag st all r
      → TokenEnd st all (matched token r)
  unfolding finish_recv
  matched-TokenEnd token st all r (Arrives.takes m st' ys run q same a quiet) =
      rw run (elim (Bool-cases (ltb 1 (length m.body))) [
        | inl long ↦ rw long (
            fails mpi_err_truncate token (status_of m mpi_err_truncate) st' refl (ground arith)
              same)
        | inr fits ↦ rw fits (
            arrives m (m.body ++ drop (length m.body) token) (status_of m mpi_success) st' ys refl q
              same a)
      ])
  matched-TokenEnd token st all r (Arrives.gives_up st' run same loud) =
      rw run (fails mpi_err_intern token none st' refl (ground arith) same)
  matched-TokenEnd token st all r (Arrives.blocks st' run same a) = rw run (waits st' refl same a)

  pub recv_token :
      (token : List ℕ) (st : Mpi) (xs : Cells)
      → st.ready ≡ true
      → (neqb_ℤ source any_source && (ltb_ℤ source (pos 0) || leb_ℤ st.size source)) ≡ false
      → IsQueue st.pool xs
      → TokenEnd st (at_hand xs st) (mpi_recv token (pos 1) mpi_byte source tag mpi_comm_world st)
  recv_token token st xs ready range q =
      subst (TokenEnd st (at_hand xs st)) (sym (mpi_recv-matched token st ready range)) (
        matched-TokenEnd token st (at_hand xs st) (recv_match source tag st)
          (recv_match-Arrives source tag st xs q))

-- How the loop ends that collects `k` tokens: with the first `k` that are accepted, or with an error, or
-- while fewer are at hand.
pub data Gathered (k : ℕ) (tag : ℤ) (st : Mpi) (all : List Message) (r : Run (ℕ × List ℕ))
    : Type 0 where
  all_in :
      (ms : List Message) (token : List ℕ) (st' : Mpi) (ys : Cells)
      → r ≡ done (mpi_success, token) st'
      → length ms ≡ k
      → IsQueue st'.pool ys
      → Untouched st st'
      → accepted any_source tag all ≡ ms ++ accepted any_source tag (at_hand ys st')
      → Gathered k tag st all r
  fails :
      (rc : ℕ) (token : List ℕ) (st' : Mpi)
      → r ≡ done (rc, token) st'
      → rc ≢ mpi_success
      → Untouched st st'
      → Gathered k tag st all r
  waits :
      (st' : Mpi)
      → r ≡ waiting st'
      → Untouched st st'
      → length (accepted any_source tag all) < k
      → Gathered k tag st all r

-- What follows the receive of a token.
unfoldable pub go_on : ℕ → ℤ → Receipt → Mpi → Run (ℕ × List ℕ)
go_on k tag r =
    let rest = gather_loop k tag mpi_comm_world r.buf in
    if r.code == mpi_success then rest else pure (r.code, r.buf)

pub go_on-success :
    (k : ℕ) (tag : ℤ) (r : Receipt) (st : Mpi)
    → r.code ≡ mpi_success
    → go_on k tag r st ≡ gather_loop k tag mpi_comm_world r.buf st
unfolding go_on
go_on-success k tag r st h = rw h refl

pub gather_loop-Gathered :
    (k : ℕ) (tag : ℤ) (token : List ℕ) (st : Mpi) (xs : Cells)
    → st.ready ≡ true
    → IsQueue st.pool xs
    → Gathered k tag st (at_hand xs st) (gather_loop k tag mpi_comm_world token st)
unfolding gather_loop go_on
gather_loop-Gathered zero tag token st xs ready q =
    all_in [] token st xs refl refl q (Untouched-record st st.pool st.inbox st.dropped) refl
gather_loop-Gathered (suc k) tag token st xs ready q =
    next (recv_token any_source tag token st xs ready refl q)
      (λ buf st' ys same q'. gather_loop-Gathered k tag buf st' ys (same.ready ∙ ready) q')
  where
    recv : Mpi → Run Receipt
    recv = mpi_recv token (pos 1) mpi_byte any_source tag mpi_comm_world

    after :
        (m : Message) (buf : List ℕ) (status : Option Status) (st' : Mpi) (ys : Cells)
        → recv st ≡ done (record { code = mpi_success; buf = buf; status = status }) st'
        → Untouched st st'
        → accepted any_source tag (at_hand xs st) ≡ m ∷ accepted any_source tag (at_hand ys st')
        → Gathered k tag st' (at_hand ys st') (gather_loop k tag mpi_comm_world buf st')
        → Gathered (suc k) tag st (at_hand xs st) (gather_loop (suc k) tag mpi_comm_world token st)
    after m buf status st' ys run same a (all_in ms t st₂ zs run₂ count q₂ same₂ a₂) =
        all_in (m ∷ ms) t st₂ zs (bind_done recv (go_on k tag) st st' run ∙ run₂) (ap suc count) q₂
          (Untouched-trans same same₂) (a ∙ ap (λ l. m ∷ l) a₂)
    after m buf status st' ys run same a (fails rc t st₂ run₂ bad same₂) =
        fails rc t st₂ (bind_done recv (go_on k tag) st st' run ∙ run₂) bad
          (Untouched-trans same same₂)
    after m buf status st' ys run same a (waits st₂ run₂ same₂ few) =
        waits st₂ (bind_done recv (go_on k tag) st st' run ∙ run₂) (Untouched-trans same same₂)
          (omega (arith, ap length a, few))

    next :
        TokenEnd any_source tag st (at_hand xs st) (recv st)
        → ((buf : List ℕ) (st' : Mpi) (ys : Cells)
            → Untouched st st'
            → IsQueue st'.pool ys
            → Gathered k tag st' (at_hand ys st') (gather_loop k tag mpi_comm_world buf st'))
        → Gathered (suc k) tag st (at_hand xs st) (gather_loop (suc k) tag mpi_comm_world token st)
    next (TokenEnd.arrives m buf status st' ys run q' same a) rest =
        after m buf status st' ys run same a (rest buf st' ys same q')
    next (TokenEnd.fails rc buf status st' run bad same) rest =
        fails rc buf st' (bind_done recv (go_on k tag) st st' run ∙ ground arith) bad same
    next (TokenEnd.waits st' run same none_yet) rest =
        waits st' (bind_waiting recv (go_on k tag) st st' run) same
          (omega (arith, ap length none_yet))
