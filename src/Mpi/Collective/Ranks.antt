-- ===== src/Mpi/Collective/Ranks.antt =====
-- What the ranks of src/mpi.c send in a barrier.
use neoos_libneoos.Base.{
  some-injective, ℕ, zero, suc, ◌+◌, ◌*◌, ◌^◌, ◌≤◌, ◌<◌, ◌≡◌, ◌≢◌, refl, sym, ◌∙◌, ap, subst, arith,
  true, ◌==◌, some, List, [], ◌∷◌, ◌++◌, length, if◌then◌else◌, ◌⊎◌, inl, inr,
}
use neoos_libneoos.Base.Int.{ℤ, pos, eqb_ℤ, IsInt}
use neoos_libneoos.Mpi.Defs.{Message, any_source, mpi_comm_world, mpi_byte, mpi_success, type_size}
use neoos_libneoos.Mpi.Wire.{header_of, message_of, message_of-make_frame}
use neoos_libneoos.Mpi.Pending.Chain.{Cells, IsQueue}
use neoos_libneoos.Mpi.State.{
  waiting-done, ends_apart, ◌>>=◌, Packet, Mpi, Run, done, waiting, bind_done, bind_waiting, pure,
}
use neoos_libneoos.Mpi.Send.{packet_for, mpi_send}
use neoos_libneoos.Mpi.Send.Laws.{Sent, delivered, refused, overflowed, mpi_send-Sent}
use neoos_libneoos.Mpi.Receive.{Receipt, mpi_recv}
use neoos_libneoos.Mpi.Receive.Accept.{at_hand, accepted}
use neoos_libneoos.Mpi.Collective.{gather_loop, release_loop, barrier_root, barrier_other}
use neoos_libneoos.Mpi.Collective.Gather.{
  waits, fails, TokenEnd, recv_token, Gathered, all_in, gather_loop-Gathered,
}

abbrev pub tag_of : Packet → ℤ
tag_of p = (header_of p.frame).tag

-- How many packets have the tag `t`.
unfoldable pub packets_with : ℤ → List Packet → ℕ
packets_with t [] = 0
packets_with t (p ∷ ps) = let k = packets_with t ps in if eqb_ℤ (tag_of p) t then suc k else k

-- What a process has sent when a call ends or blocks; `old` is what it had sent before.
abbrev pub sent_by : {A : Type 0} → Run A → List Packet → List Packet
sent_by (done rc st) old = st.sent
sent_by (waiting st) old = st.sent
sent_by _ old = old

pub packet_for-tag :
    (st : Mpi) (dest tag type count : ℤ) (body : List ℕ)
    → IsInt st.rank
    → IsInt tag
    → IsInt count
    → IsInt type
    → tag_of (packet_for st dest tag type count body) ≡ tag
unfolding message_of
packet_for-tag st dest tag type count body r t c y =
    ap (λ (m : Message). m.hdr.tag)
      (message_of-make_frame (record { src = st.rank; tag = tag; count = count; type = type }) body
        (record { src = r; tag = t; count = c; type = y }))

-- A token that is sent, or not.
abbrev TokenSent : ℤ → Mpi → Run ℕ → Type 0
TokenSent tag st r =
    ((p : Packet) × (r ≡ done mpi_success (record st { sent = p ∷ st.sent })) × (tag_of p ≡ tag))
    ⊎ ((rc : ℕ) × (rc ≢ mpi_success) × (r ≡ done rc st))

byte-fits : (esz : ℕ) → type_size mpi_byte ≡ some esz → 2 ^ 31 ≤ 1 * esz → ⊥
unfolding type_size
byte-fits esz e big = omega (arith, some-injective 1 esz e)

send_token-TokenSent :
    (token : List ℕ) (dest tag : ℤ) (st : Mpi)
    → IsInt st.rank
    → IsInt tag
    → TokenSent tag st (mpi_send token (pos 1) mpi_byte dest tag mpi_comm_world st)
send_token-TokenSent token dest tag st rank it =
    from (mpi_send-Sent token (pos 1) mpi_byte dest tag mpi_comm_world st it)
  where
    from :
        {r : Run ℕ} → Sent token (pos 1) mpi_byte dest tag mpi_comm_world st r → TokenSent tag st r
    from (delivered esz ok fits run) = inl (
      packet_for st dest tag mpi_byte (pos 1) _,
      run,
      packet_for-tag st dest tag mpi_byte (pos 1) _ rank it (omega arith) (omega arith),
    )
    from (refused rc bad run) = inr (rc, bad, run)
    from (overflowed esz ok big run) = absurd (byte-fits esz ok.sized big)

pub packets_with-skip :
    (t : ℤ) (p : Packet) (ps : List Packet)
    → tag_of p ≢ t
    → packets_with t (p ∷ ps) ≡ packets_with t ps
unfolding packets_with
packets_with-skip t p ps h = ground arith

pub packets_with-one :
    (t : ℤ) (p : Packet) (ps : List Packet) → packets_with t (p ∷ ps) ≤ suc (packets_with t ps)
unfolding packets_with
packets_with-one t p ps = ground arith

-- Releasing the other ranks sends packets of one tag only.
release_loop-packets :
    (k i : ℕ) (tag t : ℤ) (token : List ℕ) (st : Mpi) (old : List Packet)
    → IsInt st.rank
    → IsInt tag
    → tag ≢ t
    → packets_with t (sent_by (release_loop k i tag mpi_comm_world token st) old)
      ≡ packets_with t st.sent
unfolding release_loop
release_loop-packets zero i tag t token st old rank it ne = refl
release_loop-packets (suc k) i tag t token st old rank it ne =
    elim (send_token-TokenSent token (pos i) tag st rank it) [
      | inl (p, run, e) ↦
          let st₁ = record st { sent = p ∷ st.sent } in
          let skip = packets_with-skip t p st.sent (λ e'. ne (sym e ∙ e')) in
          ap (λ (r : Run ℕ). packets_with t (sent_by r old)) (bind_done send rest st st₁ run)
          ∙ release_loop-packets k (i + 1) tag t token st₁ old rank it ne
          ∙ skip
      | inr (rc, bad, run) ↦
          ap (λ (r : Run ℕ). packets_with t (sent_by r old))
            (bind_done send rest st st run ∙ stop rc bad)
    ]
  where
    send : Mpi → Run ℕ
    send = mpi_send token (pos 1) mpi_byte (pos i) tag mpi_comm_world

    rest : ℕ → Mpi → Run ℕ
    rest rc = if rc == mpi_success then release_loop k (i + 1) tag mpi_comm_world token else pure rc

    stop : (rc : ℕ) → rc ≢ mpi_success → rest rc st ≡ done rc st
    stop rc bad = ground arith

-- What another rank than 0 does in a barrier: it sends at most one packet with the tag of the tokens, and
-- it returns MPI_SUCCESS only after a message of rank 0 with the tag of the release.
pub record OtherRank (tag_in tag_out : ℤ) (st : Mpi) (all : List Message) (r : Run ℕ) : Type 0 where
  pub one_in :
      (old : List Packet) → packets_with tag_in (sent_by r old) ≤ suc (packets_with tag_in st.sent)
  pub released : (st' : Mpi) → r ≡ done mpi_success st' → 0 < length (accepted (pos 0) tag_out all)

pub barrier_other-OtherRank :
    (tag_in tag_out : ℤ) (n : ℕ) (st : Mpi) (xs : Cells)
    → IsInt st.rank
    → IsInt tag_in
    → st.ready ≡ true
    → st.size ≡ pos n
    → 1 < n
    → IsQueue st.pool xs
    → OtherRank tag_in tag_out st (at_hand xs st) (barrier_other tag_in tag_out mpi_comm_world st)
unfolding barrier_other
barrier_other-OtherRank tag_in tag_out n st xs rank it ready size many q =
    elim (send_token-TokenSent (0 ∷ []) (pos 0) tag_in st rank it) [
      | inl (p, run, e) ↦
          subst (OtherRank tag_in tag_out st (at_hand xs st))
            (sym (bind_done send rest st (next p) run))
            (received p
              (recv_token (pos 0) tag_out (0 ∷ []) (next p) xs ready (rw size (ground arith)) q))
      | inr (rc, bad, run) ↦
          subst (OtherRank tag_in tag_out st (at_hand xs st))
            (sym (bind_done send rest st st run ∙ stop rc bad))
            (record { one_in = λ old. omega arith; released = λ st' e. absurd (ends_apart bad e) })
    ]
  where
    send : Mpi → Run ℕ
    send = mpi_send (0 ∷ []) (pos 1) mpi_byte (pos 0) tag_in mpi_comm_world

    recv : Mpi → Run Receipt
    recv = mpi_recv (0 ∷ []) (pos 1) mpi_byte (pos 0) tag_out mpi_comm_world

    code : Receipt → Mpi → Run ℕ
    code r = pure r.code

    rest : ℕ → Mpi → Run ℕ
    rest rc = if rc == mpi_success then recv >>= code else pure rc

    next : Packet → Mpi
    next p = record st { sent = p ∷ st.sent }

    stop : (rc : ℕ) → rc ≢ mpi_success → rest rc st ≡ done rc st
    stop rc bad = ground arith

    received :
        (p : Packet)
        → TokenEnd (pos 0) tag_out (next p) (at_hand xs st) (recv (next p))
        → OtherRank tag_in tag_out st (at_hand xs st) ((recv >>= code) (next p))
    received p (TokenEnd.arrives m buf status st' ys run q' same a) =
        rw (bind_done recv code (next p) st' run) (record {
          one_in = λ old. rw same.sent (packets_with-one tag_in p st.sent);
          released = λ st₂ e. omega (arith, ap length a);
        })
    received p (TokenEnd.fails rc buf status st' run bad same) =
        rw (bind_done recv code (next p) st' run) (record {
          one_in = λ old. rw same.sent (packets_with-one tag_in p st.sent);
          released = λ st₂ e. absurd (ends_apart bad e);
        })
    received p (TokenEnd.waits st' run same none_yet) =
        rw (bind_waiting recv code (next p) st' run) (record {
          one_in = λ old. rw same.sent (packets_with-one tag_in p st.sent);
          released = λ st₂ e. absurd (waiting-done e);
        })

-- What rank 0 does in a barrier: it sends no packet with the tag of the tokens, and it either gets all
-- `others` tokens, or sends nothing and does not return MPI_SUCCESS.
pub record RootRank (others : ℕ) (tag_in : ℤ) (st : Mpi) (all : List Message) (r : Run ℕ)
    : Type 0 where
  pub none_in :
      (old : List Packet) → packets_with tag_in (sent_by r old) ≡ packets_with tag_in st.sent
  pub outcome :
      ((ms more : List Message) × (accepted any_source tag_in all ≡ ms ++ more)
        × (length ms ≡ others))
      ⊎ (((old : List Packet) → sent_by r old ≡ st.sent) × ((st' : Mpi) → r ≢ done mpi_success st'))

pub barrier_root-RootRank :
    (others : ℕ) (tag_in tag_out : ℤ) (st : Mpi) (xs : Cells)
    → IsInt st.rank
    → IsInt tag_out
    → tag_out ≢ tag_in
    → st.ready ≡ true
    → IsQueue st.pool xs
    → RootRank others tag_in st
        (at_hand xs st)
        (barrier_root others tag_in tag_out mpi_comm_world st)
unfolding barrier_root
barrier_root-RootRank others tag_in tag_out st xs rank it ne ready q =
    from (gather_loop-Gathered others tag_in (0 ∷ []) st xs ready q)
  where
    gather : Mpi → Run (ℕ × List ℕ)
    gather = gather_loop others tag_in mpi_comm_world (0 ∷ [])

    rest : ℕ × List ℕ → Mpi → Run ℕ
    rest r =
        if r.0 == mpi_success then release_loop others 1 tag_out mpi_comm_world r.1 else pure r.0

    stop :
        (rc : ℕ) (token : List ℕ) (st' : Mpi)
        → rc ≢ mpi_success
        → rest (rc, token) st' ≡ done rc st'
    stop rc token st' bad = ground arith

    from :
        Gathered others tag_in st (at_hand xs st) (gather st)
        → RootRank others tag_in st (at_hand xs st) ((gather >>= rest) st)
    from (all_in ms token st' ys run count q' same a) =
        rw (bind_done gather rest st st' run) (record {
          none_in = λ old.
              release_loop-packets others 1 tag_out tag_in token st' old
                (subst IsInt (sym same.rank) rank) it ne
              ∙ ap (packets_with tag_in) same.sent;
          outcome = inl (ms, accepted any_source tag_in (at_hand ys st'), a, count);
        })
    from (fails rc token st' run bad same) =
        rw (bind_done gather rest st st' run ∙ stop rc token st' bad) (record {
          none_in = λ old. ap (packets_with tag_in) same.sent;
          outcome = inr (λ old. same.sent, λ st₂ e. ends_apart bad e);
        })
    from (waits st' run same few) = rw (bind_waiting gather rest st st' run) (record {
      none_in = λ old. ap (packets_with tag_in) same.sent;
      outcome = inr (λ old. same.sent, λ st₂ e. waiting-done e);
    })
