-- ===== src/Mpi/Receive/Arrive.antt =====
-- `recv_match` of src/mpi.c for any answers of the kernel: the messages that one receive after another
-- takes, whether or not others are dropped on the way.
use neoos_libneoos.Mpi.Receive.Accept.{
  oldest-none, oldest-accepted, accepted_hit, accepted_miss, Untouched-record, accepted-append,
  Untouched-trans, accepted_behind, at_hand, accepted, Untouched,
}
use neoos_libneoos.Base.{
  ℕ, ◌≡◌, ◌≢◌, refl, sym, ◌∙◌, ap, subst, arith, true, false, Option, none, some, List, [], ◌∷◌,
  ◌++◌, length, ltb, ◌==◌, Bool-cases, inl, inr,
}
use neoos_libneoos.Base.Int.{ℤ}
use neoos_libneoos.Mpi.Defs.{Message, matches, mpi_err_intern}
use neoos_libneoos.Mpi.Wire.{header_size, message_of}
use neoos_libneoos.Mpi.Pending.{Pool, pending_take, pending_release}
use neoos_libneoos.Mpi.Pending.Chain.{IsHolding, Cells, IsQueue, messages, messages-append}
use neoos_libneoos.Mpi.Pending.Take.{
  first, without, slot_of, first-none, first-msg, pending_release-IsQueue, pending_take-first,
}
use neoos_libneoos.Mpi.State.{Arrival, failed, datagram, Mpi, Run, done, waiting}
use neoos_libneoos.Mpi.Receive.{
  Received, got, error, eintr, judge, again, give_up, keep_message, recv_loop, recv_match,
}
use neoos_libneoos.Mpi.Receive.Match.{
  keep_message-Kept, reported, queued, Kept, NoError, incoming, oldest-messages, others-messages,
  msg_of,
}
use neoos_libneoos.Mpi.Receive.Laws.{
  match_queued, match_socket, judge-hit, judge-runt, loop-again, loop-deliver,
}

module _ (source tag : ℤ) where
  -- How a receive from a well-formed queue ends.
  pub data Arrives (st : Mpi) (all : List Message) (r : Run Received) : Type 0 where
    takes :
        (m : Message) (st' : Mpi) (ys : Cells)
        → r ≡ done (got m) st'
        → IsQueue st'.pool ys
        → Untouched st st'
        → accepted source tag all ≡ m ∷ accepted source tag (at_hand ys st')
        → (NoError st.inbox → NoError st'.inbox)
        → Arrives st all r
    gives_up :
        (st' : Mpi)
        → r ≡ done (error mpi_err_intern) st'
        → Untouched st st'
        → ¬ NoError st.inbox
        → Arrives st all r
    blocks :
        (st' : Mpi)
        → r ≡ waiting st'
        → Untouched st st'
        → accepted source tag all ≡ []
        → Arrives st all r

  Arrives-equal :
      {st : Mpi} {all all' : List Message} {r : Run Received}
      → accepted source tag all ≡ accepted source tag all'
      → Arrives st all' r
      → Arrives st all r
  Arrives-equal e (takes m st' ys run q same a quiet) = takes m st' ys run q same (e ∙ a) quiet
  Arrives-equal e (gives_up st' run same loud) = gives_up st' run same loud
  Arrives-equal e (blocks st' run same a) = blocks st' run same (e ∙ a)

  -- A message that the receive does not want, kept or dropped.
  kept_aside :
      (m : Message) (st : Mpi) (xs : Cells)
      → IsQueue st.pool xs
      → matches m.hdr source tag ≡ false
      → accepted source tag (messages xs) ≡ []
      → (st' : Mpi) × (ys : Cells) × (keep_message m st ≡ some st')
        × IsQueue st'.pool ys
        × Untouched st st'
        × (accepted source tag (messages ys) ≡ [])
  kept_aside m st xs q miss none_yet = from (keep_message-Kept m st xs q)
    where
      from :
          Kept m st xs (keep_message m st)
          → (st' : Mpi) × (ys : Cells) × (keep_message m st ≡ some st')
            × IsQueue st'.pool ys
            × Untouched st st'
            × (accepted source tag (messages ys) ≡ [])
      from (queued i p room run q') =
          let nothing : accepted source tag (messages (xs ++ (i, m) ∷ [])) ≡ [] =
            ap (accepted source tag) (messages-append xs ((i, m) ∷ []))
            ∙ accepted_behind source tag xs (m ∷ []) none_yet
            ∙ accepted_miss source tag m [] miss
            ∙ unfold accepted in refl in
          (
            record st { pool = p },
            xs ++ (i, m) ∷ [],
            run,
            q',
            Untouched-record st p st.inbox st.dropped,
            nothing,
          )
      from (reported full run) = (
        record st { dropped = m.hdr ∷ st.dropped },
        xs,
        run,
        q,
        Untouched-record st st.pool st.inbox (m.hdr ∷ st.dropped),
        none_yet,
      )

  judge-keep :
      (f : List ℕ) (st st' : Mpi)
      → ltb (length f) header_size ≡ false
      → matches (message_of f).hdr source tag ≡ false
      → keep_message (message_of f) st ≡ some st'
      → judge source tag (datagram f) st ≡ again st'
  unfolding judge
  judge-keep f st st' full miss kept = rw (full, miss) (rw (kept, judge))

  judge-error : (e : ℕ) (st : Mpi) → (e == eintr) ≡ false → judge source tag (failed e) st ≡ give_up
  unfolding judge
  judge-error e st h = ground arith

  judge-eintr : (e : ℕ) (st : Mpi) → (e == eintr) ≡ true → judge source tag (failed e) st ≡ again st
  unfolding judge
  judge-eintr e st h = ground arith

  loop-error :
      (a : Arrival) (as' : List Arrival) (st : Mpi)
      → judge source tag a st ≡ give_up
      → recv_loop source tag (a ∷ as') st ≡ done (error mpi_err_intern) (record st { inbox = as' })
  unfolding recv_loop
  loop-error a as' st e = rw (e, recv_loop)

  is_error : (e : ℕ) → (e == eintr) ≡ false → e ≢ eintr
  is_error e bad h = ground arith

  loop-Arrives :
      (as' : List Arrival) (base st : Mpi) (xs : Cells)
      → Untouched base st
      → IsQueue st.pool xs
      → accepted source tag (messages xs) ≡ []
      → (NoError base.inbox → NoError as')
      → Arrives base (messages xs ++ incoming as') (recv_loop source tag as' st)
  unfolding incoming
  loop-Arrives [] base st xs same q none_yet quiet =
      blocks (record st { inbox = [] }) (unfold recv_loop in refl)
        (Untouched-trans same (Untouched-record st st.pool [] st.dropped))
        (accepted_behind source tag xs [] none_yet ∙ unfold accepted in refl)
  loop-Arrives (failed e ∷ as') base st xs same q none_yet quiet = elim (Bool-cases (e == eintr)) [
    | inl int ↦
        rw (loop-again source tag (failed e) as' st st (judge-eintr e st int))
          (loop-Arrives as' base st xs same q none_yet (λ h. (quiet h).1))
    | inr bad ↦
        gives_up (record st { inbox = as' }) (loop-error (failed e) as' st (judge-error e st bad))
          (Untouched-trans same (Untouched-record st st.pool as' st.dropped))
          (λ h. is_error e bad (quiet h).0)
  ]
  loop-Arrives (datagram f ∷ as') base st xs same q none_yet quiet =
      elim (Bool-cases (ltb (length f) header_size)) [
        | inl runt ↦
            rw
              (runt, loop-again source tag (datagram f) as' st st (judge-runt source tag f st runt))
              (loop-Arrives as' base st xs same q none_yet quiet)
        | inr full ↦ rw full (elim (Bool-cases (matches (message_of f).hdr source tag)) [
          | inl hit ↦
              takes (message_of f) (record st { inbox = as' }) xs
                (loop-deliver source tag (datagram f) as' st (message_of f)
                  (judge-hit source tag f st full hit))
                q (Untouched-trans same (Untouched-record st st.pool as' st.dropped))
                (accepted_behind source tag xs (message_of f ∷ incoming as') none_yet
                  ∙ accepted_hit source tag (message_of f) (incoming as') hit
                  ∙ ap (λ l. message_of f ∷ l)
                      (sym (accepted_behind source tag xs (incoming as') none_yet)))
                quiet
          | inr miss ↦
              let (st', ys, kept, q', same', none_left) =
                kept_aside (message_of f) st xs q miss none_yet in
              let equal : accepted source tag (messages xs ++ message_of f ∷ incoming as')
                  ≡ accepted source tag (messages ys ++ incoming as') =
                accepted_behind source tag xs (message_of f ∷ incoming as') none_yet
                ∙ accepted_miss source tag (message_of f) (incoming as') miss
                ∙ sym (accepted_behind source tag ys (incoming as') none_left) in
              rw
                (loop-again source tag (datagram f) as' st st' (judge-keep f st st' full miss kept))
                (Arrives-equal equal
                  (loop-Arrives as' base st' ys (Untouched-trans same same') q' none_left quiet))
        ])
      ]

  accepted_first :
      (xs : Cells) (i : ℕ) (m : Message) (ms : List Message)
      → first source tag xs ≡ some (i, m)
      → accepted source tag (messages xs ++ ms)
        ≡ m ∷ accepted source tag (messages (without source tag xs) ++ ms)
  accepted_first xs i m ms e =
      accepted-append source tag (messages xs) ms
      ∙ ap (λ l. l ++ accepted source tag ms)
          (oldest-accepted source tag (messages xs) m (oldest-messages source tag xs ∙ ap msg_of e)
            ∙ ap (λ l. m ∷ accepted source tag l) (others-messages source tag xs))
      ∙ ap (λ l. m ∷ l) (sym (accepted-append source tag (messages (without source tag xs)) ms))

  taken-Arrives :
      (st : Mpi) (xs : Cells) (o : Option (ℕ × Message)) (p : Pool)
      → IsQueue st.pool xs
      → first source tag xs ≡ o
      → pending_take source tag st.pool ≡ some (slot_of o, p)
      → IsHolding (slot_of o) p (without source tag xs)
      → ((j : ℕ) → (p.slot j).msg ≡ (st.pool.slot j).msg)
      → Arrives st (at_hand xs st) (recv_match source tag st)
  taken-Arrives st xs none p q e run hold same =
      let hold' : IsQueue p xs = subst (λ l. IsQueue p l) (first-none source tag xs e) hold in
      rw (match_socket source tag st p run) (
        loop-Arrives st.inbox st (record st { pool = p }) xs
          (Untouched-record st p st.inbox st.dropped) hold'
          (oldest-none source tag (messages xs) (oldest-messages source tag xs ∙ ap msg_of e))
          (λ h. h))
  taken-Arrives st xs (some (i, m)) p q e run hold same =
      let st' = record st { pool = pending_release i p } in
      takes m st' (without source tag xs)
        (match_queued source tag st i p run
          ∙ ap {B = Run Received} (λ n. done (got n) st')
              (same i ∙ first-msg source tag st.pool.slot st.pool.head xs i m q.chain e))
        (pending_release-IsQueue i p (without source tag xs) hold)
        (Untouched-record st (pending_release i p) st.inbox st.dropped)
        (accepted_first xs i m (incoming st.inbox) e) (λ h. h)

  -- For any answers of the kernel, and also when messages are dropped: a receive takes the first of the
  -- messages at hand that it accepts, and the later ones are at hand for the next such receive; it blocks
  -- only if there is none.
  pub recv_match-Arrives :
      (st : Mpi) (xs : Cells)
      → IsQueue st.pool xs
      → Arrives st (at_hand xs st) (recv_match source tag st)
  recv_match-Arrives st xs q =
      let (p, run, hold, same) = pending_take-first source tag st.pool xs q in
      taken-Arrives st xs (first source tag xs) p q refl run hold same

  -- With no error but EINTR to come, a receive that accepts some message at hand gets the first such.
  pub recv_match-gets :
      (st : Mpi) (xs : Cells) (m : Message) (later : List Message)
      → IsQueue st.pool xs
      → NoError st.inbox
      → accepted source tag (at_hand xs st) ≡ m ∷ later
      → (st' : Mpi) × (ys : Cells) × (recv_match source tag st ≡ done (got m) st')
        × IsQueue st'.pool ys
        × Untouched st st'
        × NoError st'.inbox
        × (accepted source tag (at_hand ys st') ≡ later)
  recv_match-gets st xs m later q quiet here = from (recv_match-Arrives st xs q)
    where
      from :
          Arrives st (at_hand xs st) (recv_match source tag st)
          → (st' : Mpi) × (ys : Cells) × (recv_match source tag st ≡ done (got m) st')
            × IsQueue st'.pool ys
            × Untouched st st'
            × NoError st'.inbox
            × (accepted source tag (at_hand ys st') ≡ later)
      from (takes n st' ys run q' same a still) =
          let split : n ∷ accepted source tag (at_hand ys st') ≡ m ∷ later = sym a ∙ here in
          let e : n ≡ m = cc in
          (st', ys, run ∙ ap (λ k. done (got k) st') e, q', same, still quiet, cc)
      from (gives_up st' run same loud) = absurd (loud quiet)
      from (blocks st' run same a) = absurd (omega (arith, ap length (sym here ∙ a)))

  -- A receive that returns has touched nothing else.
  pub recv_match-Untouched :
      (st st' : Mpi) (xs : Cells) (r : Received)
      → IsQueue st.pool xs
      → recv_match source tag st ≡ done r st'
      → Untouched st st'
  recv_match-Untouched st st' xs r q run = from (recv_match-Arrives st xs q)
    where
      from : Arrives st (at_hand xs st) (recv_match source tag st) → Untouched st st'
      from (takes m st₁ ys run₁ q' same a quiet) =
          let both : done (got m) st₁ ≡ done r st' = sym run₁ ∙ run in
          let e : st₁ ≡ st' = cc in subst (Untouched st) e same
      from (gives_up st₁ run₁ same loud) =
          let both : done (error mpi_err_intern) st₁ ≡ done r st' = sym run₁ ∙ run in
          let e : st₁ ≡ st' = cc in subst (Untouched st) e same
      from (blocks st₁ run₁ same a) =
          let both : waiting st₁ ≡ done r st' = sym run₁ ∙ run in absurd (cc)
