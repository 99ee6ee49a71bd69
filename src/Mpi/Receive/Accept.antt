-- ===== src/Mpi/Receive/Accept.antt =====
-- The messages at hand at a process of src/mpi.c, and those among them that a receive accepts.
use neoos_libneoos.Base.{
  ◌≡◌, refl, ◌∙◌, ap, arith, true, false, none, some, List, [], ◌∷◌, ◌++◌, if◌then◌else◌,
}
use neoos_libneoos.Base.Int.{ℤ}
use neoos_libneoos.Mpi.Defs.{Message, Header, matches}
use neoos_libneoos.Mpi.Pending.{Pool}
use neoos_libneoos.Mpi.Pending.Chain.{Cells, messages}
use neoos_libneoos.Mpi.State.{Arrival, Mpi}
use neoos_libneoos.Mpi.Receive.Match.{incoming, oldest, others}

-- What is at hand: the queue, and then what comes in.
abbrev pub at_hand : Cells → Mpi → List Message
at_hand xs st = messages xs ++ incoming st.inbox

-- What a receive leaves alone.
pub record Untouched (st st' : Mpi) : Type 0 where
  pub rank : st'.rank ≡ st.rank
  pub size : st'.size ≡ st.size
  pub ready : st'.ready ≡ st.ready
  pub coll_seq : st'.coll_seq ≡ st.coll_seq
  pub sent : st'.sent ≡ st.sent
  pub takes : st'.takes ≡ st.takes

-- A state with another pool, other answers to come and other reports.
pub Untouched-record :
    (st : Mpi) (p : Pool) (as' : List Arrival) (hs : List Header)
    → Untouched st (record st { pool = p; inbox = as'; dropped = hs })
Untouched-record st p as' hs = record {
  rank = refl;
  size = refl;
  ready = refl;
  coll_seq = refl;
  sent = refl;
  takes = refl;
}

pub Untouched-trans : {a b c : Mpi} → Untouched a b → Untouched b c → Untouched a c
Untouched-trans h k = record {
  rank = k.rank ∙ h.rank;
  size = k.size ∙ h.size;
  ready = k.ready ∙ h.ready;
  coll_seq = k.coll_seq ∙ h.coll_seq;
  sent = k.sent ∙ h.sent;
  takes = k.takes ∙ h.takes;
}

module _ (source tag : ℤ) where
  -- The messages that a receive accepts, in their order.
  unfoldable pub accepted : List Message → List Message
  accepted [] = []
  accepted (m ∷ ms) = if matches m.hdr source tag then m ∷ accepted ms else accepted ms

  pub accepted-append : (ms ns : List Message) → accepted (ms ++ ns) ≡ accepted ms ++ accepted ns
  unfolding accepted
  accepted-append [] ns = refl
  accepted-append (m ∷ ms) ns = ground (arith, accepted-append ms ns)

  pub oldest-accepted :
      (ms : List Message) (m : Message)
      → oldest source tag ms ≡ some m
      → accepted ms ≡ m ∷ accepted (others source tag ms)
  unfolding oldest others accepted
  oldest-accepted [] m h = cc
  oldest-accepted (n ∷ ms) m h = ground (arith, oldest-accepted ms m)

  pub oldest-none : (ms : List Message) → oldest source tag ms ≡ none → accepted ms ≡ []
  unfolding oldest accepted
  oldest-none [] h = refl
  oldest-none (n ∷ ms) h = ground (arith, oldest-none ms)

  pub accepted_hit :
      (m : Message) (ms : List Message)
      → matches m.hdr source tag ≡ true
      → accepted (m ∷ ms) ≡ m ∷ accepted ms
  unfolding accepted
  accepted_hit m ms h = rw h refl

  pub accepted_miss :
      (m : Message) (ms : List Message)
      → matches m.hdr source tag ≡ false
      → accepted (m ∷ ms) ≡ accepted ms
  unfolding accepted
  accepted_miss m ms h = rw h refl

  -- Behind a queue with nothing to accept.
  pub accepted_behind :
      (xs : Cells) (ms : List Message)
      → accepted (messages xs) ≡ []
      → accepted (messages xs ++ ms) ≡ accepted ms
  accepted_behind xs ms h = accepted-append (messages xs) ms ∙ ap (λ l. l ++ accepted ms) h
