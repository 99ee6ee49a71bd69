-- ===== src/Mpi/Receive/Laws.antt =====
-- `recv_match` of src/mpi.c delivers the oldest matching message and keeps all others in order.
use neoos_libneoos.Base.{
  length-append, subst, suc, ℕ, ◌+◌, ◌≤◌, ◌<◌, ◌≡◌, refl, ◌∙◌, sym, ap, true, false, Option, none,
  some, List, [], ◌∷◌, ◌++◌, arith, length, ltb, Bool-cases, inl, inr,
}
use neoos_libneoos.Base.Int.{ℤ}
use neoos_libneoos.Mpi.Defs.{Message, matches}
use neoos_libneoos.Mpi.Wire.{header_size, message_of}
use neoos_libneoos.Mpi.Pending.{pending_release, Pool, pending_slots, pending_take}
use neoos_libneoos.Mpi.Pending.Chain.{IsHolding, Cells, messages, messages-append, IsQueue}
use neoos_libneoos.Mpi.Pending.Take.{
  pending_release-IsQueue, first-msg, first-none, pending_take-first, slot_of, first, without,
}
use neoos_libneoos.Mpi.State.{Arrival, failed, datagram, Mpi, Run, done, waiting}
use neoos_libneoos.Mpi.Receive.{deliver, again, Received, got, eintr, judge, recv_loop, recv_match}
use neoos_libneoos.Mpi.Receive.Match.{
  unmatched-append, oldest-cons_hit, incoming, NoError, oldest, others, oldest-append_none,
  oldest-append_some, oldest-messages, others-messages, keep_message-append, msg_of,
}
use mathlib.Core.List.{append_assoc, append-nil}

-- What is left after a receive: the queue `ys`, behind it what has not been read yet, and no report of
-- a lost message.
pub record Left (st st' : Mpi) (rest : List Message) : Type 0 where
  pub cells : Cells
  pub queue : IsQueue st'.pool cells
  pub kept : messages cells ++ incoming st'.inbox ≡ rest
  pub dropped : st'.dropped ≡ st.dropped
  pub quiet : NoError st'.inbox

one_behind :
    (xs : Cells) (i : ℕ) (m : Message) (ns : List Message)
    → messages (xs ++ (i, m) ∷ []) ++ ns ≡ messages xs ++ m ∷ ns
one_behind xs i m ns = simp (messages-append, append_assoc)

module _ (source tag : ℤ) where
  -- `all` is what the process holds: the unexpected queue, then what comes in, oldest first.
  pub data Outcome (st : Mpi) (all : List Message) (r : Run Received) : Type 0 where
    delivers :
        (m : Message) (st' : Mpi)
        → r ≡ done (got m) st'
        → oldest source tag all ≡ some m
        → Left st st' (others source tag all)
        → Outcome st all r
    blocks :
        (st' : Mpi)
        → r ≡ waiting st'
        → oldest source tag all ≡ none
        → Left st st' all
        → Outcome st all r

  judge-eintr : (e : ℕ) (st : Mpi) → e ≡ eintr → judge source tag (failed e) st ≡ again st
  unfolding judge
  judge-eintr e st h = ground arith

  pub judge-runt :
      (f : List ℕ) (st : Mpi)
      → ltb (length f) header_size ≡ true
      → judge source tag (datagram f) st ≡ again st
  unfolding judge
  judge-runt f st h = rw h

  pub judge-hit :
      (f : List ℕ) (st : Mpi)
      → ltb (length f) header_size ≡ false
      → matches (message_of f).hdr source tag ≡ true
      → judge source tag (datagram f) st ≡ deliver (message_of f)
  unfolding judge
  judge-hit f st full hit = rw (full, hit)

  judge-miss :
      (f : List ℕ) (st : Mpi) (xs : Cells)
      → ltb (length f) header_size ≡ false
      → matches (message_of f).hdr source tag ≡ false
      → IsQueue st.pool xs
      → length xs < pending_slots
      → (i : ℕ) × (p : Pool) × (judge source tag (datagram f) st ≡ again (record st { pool = p }))
        × IsQueue p (xs ++ (i, message_of f) ∷ [])
  unfolding judge
  judge-miss f st xs full miss q room =
      let (i, p, run, q') = keep_message-append (message_of f) st xs q room in
      (i, p, rw (full, miss) (rw (run, judge)), q')

  pub loop-again :
      (a : Arrival) (as' : List Arrival) (st st' : Mpi)
      → judge source tag a st ≡ again st'
      → recv_loop source tag (a ∷ as') st ≡ recv_loop source tag as' st'
  unfolding recv_loop
  loop-again a as' st st' e = rw (e, recv_loop)

  pub loop-deliver :
      (a : Arrival) (as' : List Arrival) (st : Mpi) (m : Message)
      → judge source tag a st ≡ deliver m
      → recv_loop source tag (a ∷ as') st ≡ done (got m) (record st { inbox = as' })
  unfolding recv_loop
  loop-deliver a as' st m e = rw (e, recv_loop)

  loop-Outcome :
      (as' : List Arrival) (st : Mpi) (xs : Cells) (base : Mpi)
      → st.dropped ≡ base.dropped
      → IsQueue st.pool xs
      → NoError as'
      → oldest source tag (messages xs) ≡ none
      → length xs + length (incoming as') ≤ pending_slots
      → Outcome base (messages xs ++ incoming as') (recv_loop source tag as' st)
  unfolding incoming
  loop-Outcome [] st xs base bd q ok unmatched room =
      blocks (record st { inbox = [] }) (loop-nil st) (rw append-nil unmatched)
        (record { cells = xs; queue = q; kept = refl; dropped = bd; quiet = tt })
    where
      loop-nil : (st : Mpi) → recv_loop source tag [] st ≡ waiting (record st { inbox = [] })
      loop-nil st = unfold recv_loop in refl
  loop-Outcome (failed e ∷ as') st xs base bd q (int, ok) unmatched room =
      rw (loop-again (failed e) as' st st (judge-eintr e st int))
        (loop-Outcome as' st xs base bd q ok unmatched room)
  loop-Outcome (datagram f ∷ as') st xs base bd q ok unmatched room =
      elim (Bool-cases (ltb (length f) header_size)) [
        | inl runt ↦
            rw (runt, loop-again (datagram f) as' st st (judge-runt f st runt))
              (loop-Outcome as' st xs base bd q ok unmatched (rw runt at room))
        | inr full ↦ rw full (elim (Bool-cases (matches (message_of f).hdr source tag)) [
          | inl hit ↦
              let (o, rest) =
                oldest-append_none source tag (messages xs) (message_of f ∷ incoming as')
                  unmatched in
              let (o', rest') = oldest-cons_hit source tag (message_of f) (incoming as') hit in
              delivers (message_of f) (record st { inbox = as' })
                (loop-deliver (datagram f) as' st (message_of f) (judge-hit f st full hit)) (o ∙ o')
                (record {
                  cells = xs;
                  queue = q;
                  kept = sym (rest ∙ ap (λ l. messages xs ++ l) rest');
                  dropped = bd;
                  quiet = ok;
                })
          | inr miss ↦
              let room' : length xs + suc (length (incoming as')) ≤ pending_slots =
                rw full at room in
              let (i, p, run, q') = judge-miss f st xs full miss q (omega arith) in
              rw (loop-again (datagram f) as' st (record st { pool = p }) run) (
                subst (λ l. Outcome base l (recv_loop source tag as' (record st { pool = p })))
                  (one_behind xs i (message_of f) (incoming as'))
                  (loop-Outcome as' (record st { pool = p }) (xs ++ (i, message_of f) ∷ []) base bd
                    q' ok (unmatched-append source tag xs i (message_of f) unmatched miss)
                    (omega (arith, length-append xs ((i, message_of f) ∷ []), room'))))
        ])
      ]

  pub match_queued :
      (st : Mpi) (i : ℕ) (p : Pool)
      → pending_take source tag st.pool ≡ some (some i, p)
      → recv_match source tag st
        ≡ done (got (p.slot i).msg) (record st { pool = pending_release i p })
  unfolding recv_match
  match_queued st i p e = rw (e, recv_match)

  pub match_socket :
      (st : Mpi) (p : Pool)
      → pending_take source tag st.pool ≡ some (none, p)
      → recv_match source tag st ≡ recv_loop source tag st.inbox (record st { pool = p })
  unfolding recv_match
  match_socket st p e = rw (e, recv_match)

  taken-Outcome :
      (st : Mpi) (xs : Cells) (o : Option (ℕ × Message)) (p : Pool)
      → IsQueue st.pool xs
      → NoError st.inbox
      → length xs + length (incoming st.inbox) ≤ pending_slots
      → first source tag xs ≡ o
      → pending_take source tag st.pool ≡ some (slot_of o, p)
      → IsHolding (slot_of o) p (without source tag xs)
      → ((j : ℕ) → (p.slot j).msg ≡ (st.pool.slot j).msg)
      → Outcome st (messages xs ++ incoming st.inbox) (recv_match source tag st)
  taken-Outcome st xs none p q ok room e run hold same =
      let hold' : IsQueue p xs = subst (λ l. IsQueue p l) (first-none source tag xs e) hold in
      rw (match_socket st p run) (
        loop-Outcome st.inbox (record st { pool = p }) xs st refl hold' ok
          (oldest-messages source tag xs ∙ ap msg_of e) room)
  taken-Outcome st xs (some (i, m)) p q ok room e run hold same =
      let st' = record st { pool = pending_release i p } in
      let (o, rest) =
        oldest-append_some source tag (messages xs) (incoming st.inbox) m
          (oldest-messages source tag xs ∙ ap msg_of e) in
      delivers m st'
        (match_queued st i p run
          ∙ ap {B = Run Received} (λ n. done (got n) st')
              (same i ∙ first-msg source tag st.pool.slot st.pool.head xs i m q.chain e))
        o
        (record {
          cells = without source tag xs;
          queue = pending_release-IsQueue i p (without source tag xs) hold;
          kept = ap (λ l. l ++ incoming st.inbox) (sym (others-messages source tag xs)) ∙ sym rest;
          dropped = refl;
          quiet = ok;
        })

  -- With room for all that is at hand and no error but EINTR, `recv_match` hands out the oldest message
  -- that matches, wherever it stands, or blocks if there is none. All other messages stay, in their
  -- order, and none is dropped.
  pub recv_match-Outcome :
      (st : Mpi) (xs : Cells)
      → IsQueue st.pool xs
      → NoError st.inbox
      → length xs + length (incoming st.inbox) ≤ pending_slots
      → Outcome st (messages xs ++ incoming st.inbox) (recv_match source tag st)
  recv_match-Outcome st xs q ok room =
      let (p, run, hold, same) = pending_take-first source tag st.pool xs q in
      taken-Outcome st xs (first source tag xs) p q ok room refl run hold same
