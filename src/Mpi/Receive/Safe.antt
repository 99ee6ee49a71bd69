-- ===== src/Mpi/Receive/Safe.antt =====
-- Whatever arrives, the unexpected queue of src/mpi.c stays well formed.
use neoos_libneoos.Mpi.Receive.Laws.{match_queued, match_socket}
use neoos_libneoos.Mpi.Pending.Take.{
  pending_release-IsQueue, without, slot_of, pending_take-first, first,
}
use neoos_libneoos.Base.{
  dec_lt, ℕ, ◌≡◌, refl, Option, none, some, List, [], ◌∷◌, ◌++◌, arith, length, ltb, ◌==◌,
  Bool-cases, inl, inr,
}
use neoos_libneoos.Base.Int.{ℤ}
use neoos_libneoos.Mpi.Defs.{mpi_err_intern, Message, matches}
use neoos_libneoos.Mpi.Wire.{header_size, message_of}
use neoos_libneoos.Mpi.Pending.{pending_release, pending_take, Pool, pending_slots}
use neoos_libneoos.Mpi.Pending.Chain.{IsHolding, Cells, IsQueue, length-le}
use neoos_libneoos.Mpi.State.{Arrival, failed, datagram, Mpi, Run, done, waiting}
use neoos_libneoos.Mpi.Receive.{
  Received, out_of_fuel, error, got, lost_way, keep_message, eintr, judge, Verdict, again, deliver,
  give_up, recv_loop, recv_match,
}
use neoos_libneoos.Mpi.Receive.Match.{keep_message-append, keep_message-full}

-- The call comes back with a message or MPI_ERR_INTERN, or blocks, with a queue in the pool.
pub data Safe (r : Run Received) : Type 0 where
  hands_over :
      (m : Message) (st : Mpi) (xs : Cells) → r ≡ done (got m) st → IsQueue st.pool xs → Safe r
  fails : (st : Mpi) (xs : Cells) → r ≡ done (error mpi_err_intern) st → IsQueue st.pool xs → Safe r
  blocks : (st : Mpi) (xs : Cells) → r ≡ waiting st → IsQueue st.pool xs → Safe r

module _ (source tag : ℤ) where
  data Judged (st : Mpi) (v : Verdict) : Type 0 where
    goes_on : (st' : Mpi) (xs : Cells) → v ≡ again st' → IsQueue st'.pool xs → Judged st v
    hands_out : (m : Message) → v ≡ deliver m → Judged st v
    stops : v ≡ give_up → Judged st v

  kept-Judged :
      (m : Message) (st : Mpi) (xs : Cells)
      → IsQueue st.pool xs
      → (st' : Mpi) × (ys : Cells) × (keep_message m st ≡ some st') × IsQueue st'.pool ys
  kept-Judged m st xs q = elim (dec_lt (length xs) pending_slots) [
    | yes room ↦
        let (i, p, run, q') = keep_message-append m st xs q room in
        (record st { pool = p }, xs ++ (i, m) ∷ [], run, q')
    | no full ↦ (
      record st { dropped = m.hdr ∷ st.dropped },
      xs,
      keep_message-full m st xs q (omega (arith, length-le q)),
      q,
    )
  ]

  judge-Judged :
      (a : Arrival) (st : Mpi) (xs : Cells) → IsQueue st.pool xs → Judged st (judge source tag a st)
  unfolding judge
  judge-Judged (failed e) st xs q = elim (Bool-cases (e == eintr)) [
    | inl h ↦ rw h (goes_on st xs refl q)
    | inr h ↦ rw h (stops refl)
  ]
  judge-Judged (datagram f) st xs q = elim (Bool-cases (ltb (length f) header_size)) [
    | inl h ↦ rw h (goes_on st xs refl q)
    | inr h ↦ rw h (elim (Bool-cases (matches (message_of f).hdr source tag)) [
      | inl hit ↦ rw hit (hands_out (message_of f) refl)
      | inr miss ↦
          let (st', ys, run, q') = kept-Judged (message_of f) st xs q in
          rw miss (goes_on st' ys (rw (run, judge)) q')
    ])
  ]

  loop-Safe :
      (as' : List Arrival) (st : Mpi) (xs : Cells)
      → IsQueue st.pool xs
      → Safe (recv_loop source tag as' st)
  unfolding recv_loop
  loop-Safe [] st xs q = blocks (record st { inbox = [] }) xs refl q
  loop-Safe (a ∷ as') st xs q = next (judge-Judged a st xs q) (loop-Safe as')
    where
      next :
          {v : Verdict}
          → Judged st v
          → ((st' : Mpi) (ys : Cells) → IsQueue st'.pool ys → Safe (recv_loop source tag as' st'))
          → Safe (elim v [
            | again st' ↦ recv_loop source tag as' st'
            | deliver m ↦ done (got m) (record st { inbox = as' })
            | give_up ↦ done (error mpi_err_intern) (record st { inbox = as' })
            | lost_way ↦ out_of_fuel
          ])
      next (goes_on st' ys e q') rest = rw e (rest st' ys q')
      next (hands_out m e) rest = rw e (hands_over m (record st { inbox = as' }) xs refl q)
      next (stops e) rest = rw e (fails (record st { inbox = as' }) xs refl q)

  taken-Safe :
      (st : Mpi) (xs : Cells) (o : Option (ℕ × Message)) (p : Pool)
      → first source tag xs ≡ o
      → pending_take source tag st.pool ≡ some (slot_of o, p)
      → IsHolding (slot_of o) p (without source tag xs)
      → Safe (recv_match source tag st)
  taken-Safe st xs none p e run hold =
      rw (match_socket source tag st p run)
        (loop-Safe st.inbox (record st { pool = p }) (without source tag xs) hold)
  taken-Safe st xs (some (i, m)) p e run hold =
      hands_over (p.slot i).msg (record st { pool = pending_release i p }) (without source tag xs)
        (match_queued source tag st i p run)
        (pending_release-IsQueue i p (without source tag xs) hold)

  -- `recv_match` never loses its way in the queue: from a well-formed queue it returns or blocks with
  -- a well-formed queue, for any answers of the kernel.
  pub recv_match-Safe :
      (st : Mpi) (xs : Cells) → IsQueue st.pool xs → Safe (recv_match source tag st)
  recv_match-Safe st xs q =
      let (p, run, hold, same) = pending_take-first source tag st.pool xs q in
      taken-Safe st xs (first source tag xs) p refl run hold
