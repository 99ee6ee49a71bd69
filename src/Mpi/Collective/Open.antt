-- ===== src/Mpi/Collective/Open.antt =====
-- A rank of src/mpi.c to which the messages of a barrier come, and whose own go out.
use neoos_libneoos.Mpi.Collective.Gather.{go_on-success, go_on}
use neoos_libneoos.Mpi.Send.Tags.{coll_tag-allowed, coll_tag_low}
use neoos_libneoos.Mpi.Receive.Exchange.{mpi_recv-receipt, receipt}
use neoos_libneoos.Mpi.Receive.Match.{NoError}
use neoos_libneoos.Mpi.Send.{coll_tag, mpi_send}
use neoos_libneoos.Mpi.Receive.Accept.{
  Untouched-trans, Untouched-record, at_hand, accepted, Untouched,
}
use neoos_libneoos.Mpi.Send.Laws.{mpi_send-delivers, sent_state, packet_of}
use neoos_libneoos.Mpi.Pending.Chain.{IsQueue, Cells}
use neoos_libneoos.Mpi.Defs.{
  mpi_success, mpi_comm_world, any_source, neqb_ℤ, mpi_byte, type_size, Message,
}
use neoos_libneoos.Base.{
  ℕ, zero, suc, ◌+◌, ◌≤◌, ◌<◌, ◌≡◌, refl, ◌∙◌, ap, arith, Bool, true, false, ◌&&◌, ◌||◌, ◌==◌, List,
  [], ◌∷◌, ◌++◌, length, map,
}
use neoos_libneoos.Base.Int.{ℤ, pos, ltb_ℤ, leb_ℤ}
use neoos_libneoos.Mpi.State.{bind_done, Mpi, Packet, done}
use neoos_libneoos.Mpi.Collective.{gather_loop, release_loop}
use neoos_libneoos.Mpi.Collective.Broadcast.{others, onto}
use neoos_libneoos.Mpi.Receive.{Receipt, mpi_recv}

-- Messages of at most one byte.
abbrev pub Short : List Message → Type 0
Short [] = Unit
Short (m ∷ ms) = (length m.body ≤ 1) × Short ms

-- A rank of a world of `n` that is ready, whose datagrams the kernel takes and to which no error comes.
pub record IsOpen (n : ℕ) (st : Mpi) (xs : Cells) : Type 0 where
  pub ready : st.ready ≡ true
  pub size : st.size ≡ pos n
  pub taken : (sent : List Packet) (p : Packet) → st.takes sent p ≡ true
  pub queue : IsQueue st.pool xs
  pub quiet : NoError st.inbox

pub later-IsOpen :
    {n : ℕ} {st st' : Mpi} {xs ys : Cells}
    → IsOpen n st xs
    → Untouched st st'
    → IsQueue st'.pool ys
    → NoError st'.inbox
    → IsOpen n st' ys
later-IsOpen ok same q quiet = record {
  ready = same.ready ∙ ok.ready;
  size = same.size ∙ ok.size;
  taken = λ sent p. ap (λ (t : List Packet → Packet → Bool). t sent p) same.takes ∙ ok.taken sent p;
  queue = q;
  quiet = quiet;
}

pub sent-IsOpen :
    {n : ℕ} {st : Mpi} {xs : Cells} (ps : List Packet)
    → IsOpen n st xs
    → IsOpen n (record st { sent = ps }) xs
sent-IsOpen ps ok = record {
  ready = ok.ready;
  size = ok.size;
  taken = ok.taken;
  queue = ok.queue;
  quiet = ok.quiet;
}

-- A token to a rank.
abbrev pub token_packet : List ℕ → ℤ → Mpi → ℕ → Packet
token_packet token tag st j = packet_of token (pos 1) mpi_byte (pos j) tag 1 st

pub token_packets :
    (token : List ℕ) (tag : ℤ) (st st' : Mpi) (l : List ℕ)
    → st'.rank ≡ st.rank
    → map (token_packet token tag st') l ≡ map (token_packet token tag st) l
token_packets token tag st st' l h = rw h refl

pub send_token-goes :
    (token : List ℕ) (n j base seq : ℕ) (st : Mpi) (xs : Cells)
    → IsOpen n st xs
    → j < n
    → base < 64
    → mpi_send token (pos 1) mpi_byte (pos j) (coll_tag base seq) mpi_comm_world st
      ≡ done mpi_success (sent_state (token_packet token (coll_tag base seq) st j) st)
unfolding type_size
send_token-goes token n j base seq st xs ok lt small =
    mpi_send-delivers token (pos 1) mpi_byte (pos j) (coll_tag base seq) mpi_comm_world 1 st
      (record {
        world = refl;
        ready = ok.ready;
        dest_low = ground arith;
        dest_high = rw ok.size (ground arith);
        count_low = ground arith;
        tag_low = coll_tag_low base seq small;
        sized = refl;
      })
      (coll_tag-allowed base seq small) (omega arith) (ok.taken _ _)

-- The receive of a token that has come in.
pub recv_token-comes :
    (token : List ℕ) (n : ℕ) (source tag : ℤ) (st : Mpi) (xs : Cells) (m : Message)
    (later : List Message)
    → IsOpen n st xs
    → (neqb_ℤ source any_source && (ltb_ℤ source (pos 0) || leb_ℤ st.size source)) ≡ false
    → accepted source tag (at_hand xs st) ≡ m ∷ later
    → length m.body ≤ 1
    → (r : Receipt) × (st' : Mpi) × (ys : Cells) × (mpi_recv token
          (pos 1)
          mpi_byte
          source
          tag
          mpi_comm_world
          st
        ≡ done r st')
      × (r.code ≡ mpi_success)
      × Untouched st st'
      × IsOpen n st' ys
      × (accepted source tag (at_hand ys st') ≡ later)
unfolding type_size
recv_token-comes token n source tag st xs m later ok range here short =
    let (st', ys, run, q, same, quiet, rest) =
      mpi_recv-receipt token (pos 1) mpi_byte source tag 1 st xs m later
        (record {
          ready = ok.ready;
          range = range;
          count_low = ground arith;
          sized = refl;
          small = omega arith;
          queue = ok.queue;
          quiet = ok.quiet;
        })
        here in
    (
      receipt m token 1,
      st',
      ys,
      run,
      success m token short,
      same,
      later-IsOpen ok same q quiet,
      rest,
    )
  where
    success :
        (m : Message) (token : List ℕ) → length m.body ≤ 1 → (receipt m token 1).code ≡ mpi_success
    success m token short = ground (arith, short)

-- All tokens.
pub gather_loop-comes :
    (ms more : List Message) (token : List ℕ) (n : ℕ) (tag : ℤ) (st : Mpi) (xs : Cells)
    → IsOpen n st xs
    → accepted any_source tag (at_hand xs st) ≡ ms ++ more
    → Short ms
    → (t : List ℕ) × (st' : Mpi) × (ys : Cells) × (gather_loop
          (length ms)
          tag
          mpi_comm_world
          token
          st
        ≡ done (mpi_success, t) st')
      × Untouched st st'
      × IsOpen n st' ys
unfolding gather_loop go_on
gather_loop-comes [] more token n tag st xs ok here short =
    (token, st, xs, refl, Untouched-record st st.pool st.inbox st.dropped, ok)
gather_loop-comes (m ∷ ms) more token n tag st xs ok here (short, rest) =
    let (r, st₁, ys, run, good, same, ok₁, later) =
      recv_token-comes token n any_source tag st xs m (ms ++ more) ok refl here short in
    let (t, st₂, zs, runs, same₂, ok₂) =
      gather_loop-comes ms more r.buf n tag st₁ ys ok₁ later rest in
    (
      t,
      st₂,
      zs,
      bind_done (mpi_recv token (pos 1) mpi_byte any_source tag mpi_comm_world)
            (go_on (length ms) tag) st st₁ run
          ∙ go_on-success (length ms) tag r st₁ good
          ∙ runs,
      Untouched-trans same same₂,
      ok₂,
    )

-- All releases.
pub release_loop-goes :
    (k i n base seq : ℕ) (token : List ℕ) (st : Mpi) (xs : Cells)
    → IsOpen n st xs
    → 0 < i
    → i + k ≤ n
    → base < 64
    → release_loop k i (coll_tag base seq) mpi_comm_world token st
      ≡ done mpi_success (record st {
        sent = onto (map (token_packet token (coll_tag base seq) st) (others 0 k i)) st.sent;
      })
unfolding release_loop
release_loop-goes zero i n base seq token st xs ok first below small = refl
release_loop-goes (suc k) i n base seq token st xs ok first below small =
    let p = token_packet token (coll_tag base seq) st i in
    let other : (i == 0) ≡ false = ground arith in
    rw other (
      bind_done (mpi_send token (pos 1) mpi_byte (pos i) (coll_tag base seq) mpi_comm_world) _ st
        (sent_state p st) (send_token-goes token n i base seq st xs ok (omega arith) small)
      ∙ release_loop-goes k (i + 1) n base seq token (sent_state p st) xs
          (sent-IsOpen (p ∷ st.sent) ok) (omega arith) (omega arith) small)
