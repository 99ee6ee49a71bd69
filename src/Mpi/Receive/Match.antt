-- ===== src/Mpi/Receive/Match.antt =====
-- Receive matching of src/mpi.c against one list of messages in order of arrival.
use neoos_libneoos.Base.{
  dec_lt, ◌∙◌, false, true, suc, ℕ, ◌<◌, ◌≡◌, refl, ap, Option, none, some, List, [], ◌∷◌, ◌++◌,
  if◌then◌else◌, arith, length, ltb,
}
use neoos_libneoos.Base.Int.{ℤ}
use neoos_libneoos.Mpi.Defs.{Message, matches}
use neoos_libneoos.Mpi.Wire.{header_size, message_of}
use neoos_libneoos.Mpi.Pending.{Pool, pending_slots, pending_alloc, fill}
use neoos_libneoos.Mpi.Pending.Chain.{length-le, messages-append, Cells, messages, IsQueue}
use neoos_libneoos.Mpi.Pending.Take.{first, without}
use neoos_libneoos.Mpi.Pending.Push.{
  fill-IsHolding, pending_alloc-none, pending_alloc-IsHolding, pending_push-append,
}
use neoos_libneoos.Mpi.State.{Arrival, failed, datagram, Mpi}
use neoos_libneoos.Mpi.Receive.{eintr, keep_message}

-- The frames among the answers of `recvfrom` that carry a message; runts carry none.
unfoldable pub incoming : List Arrival → List Message
incoming [] = []
incoming (failed e ∷ as') = incoming as'
incoming (datagram f ∷ as') =
    if ltb (length f) header_size then incoming as' else message_of f ∷ incoming as'

-- No answer of `recvfrom` is an error but EINTR.
abbrev pub NoError : List Arrival → Type 0
NoError [] = Unit
NoError (failed e ∷ as') = (e ≡ eintr) × NoError as'
NoError (datagram f ∷ as') = NoError as'

abbrev pub msg_of : Option (ℕ × Message) → Option Message
msg_of none = none
msg_of (some (i, m)) = some m

module _ (source tag : ℤ) where
  -- The oldest message that a receive accepts, and the others in their order.
  unfoldable pub oldest : List Message → Option Message
  oldest [] = none
  oldest (m ∷ ms) = if matches m.hdr source tag then some m else oldest ms

  unfoldable pub others : List Message → List Message
  others [] = []
  others (m ∷ ms) = if matches m.hdr source tag then ms else m ∷ others ms

  pub oldest-append_none :
      (ms ns : List Message)
      → oldest ms ≡ none
      → (oldest (ms ++ ns) ≡ oldest ns) × (others (ms ++ ns) ≡ ms ++ others ns)
  unfolding oldest others
  oldest-append_none [] ns h = (refl, refl)
  oldest-append_none (m ∷ ms) ns h = ground (arith, oldest-append_none ms ns)

  pub oldest-append_some :
      (ms ns : List Message) (m : Message)
      → oldest ms ≡ some m
      → (oldest (ms ++ ns) ≡ some m) × (others (ms ++ ns) ≡ others ms ++ ns)
  unfolding oldest others
  oldest-append_some [] ns m h = cc
  oldest-append_some (n ∷ ms) ns m h = ground (arith, oldest-append_some ms ns m)

  pub oldest-messages : (xs : Cells) → oldest (messages xs) ≡ msg_of (first source tag xs)
  unfolding oldest first
  oldest-messages [] = refl
  oldest-messages ((i, m) ∷ xs) = ground (arith, oldest-messages xs)

  pub others-messages : (xs : Cells) → others (messages xs) ≡ messages (without source tag xs)
  unfolding others without
  others-messages [] = refl
  others-messages ((i, m) ∷ xs) = ground (arith, others-messages xs)

pub length-messages : (xs : Cells) → length (messages xs) ≡ length xs
length-messages [] = refl
length-messages ((i, m) ∷ xs) = ap suc (length-messages xs)

-- With a free slot the message becomes the last of the queue, and nothing else changes.
pub keep_message-append :
    (m : Message) (st : Mpi) (xs : Cells)
    → IsQueue st.pool xs
    → length xs < pending_slots
    → (i : ℕ) × (p : Pool) × (keep_message m st ≡ some (record st { pool = p }))
      × IsQueue p (xs ++ (i, m) ∷ [])
unfolding keep_message
keep_message-append m st xs q room = kept (pending_alloc st.pool) refl
  where
    kept :
        (o : Option (ℕ × Pool))
        → pending_alloc st.pool ≡ o
        → (i : ℕ) × (p : Pool) × (keep_message m st ≡ some (record st { pool = p }))
          × IsQueue p (xs ++ (i, m) ∷ [])
    kept none e = absurd (omega (arith, (pending_alloc-none st.pool xs q).0 e))
    kept (some (i, p)) e =
        let h = pending_alloc-IsHolding st.pool xs i p q e in
        let (h', at) = fill-IsHolding i m p xs h in
        let (p', run, q') = pending_push-append i m (fill i m p) xs h' at in
        (i, p', rw (e, keep_message) (rw (run, keep_message)), q')

-- With none it is reported and dropped.
pub keep_message-full :
    (m : Message) (st : Mpi) (xs : Cells)
    → IsQueue st.pool xs
    → length xs ≡ pending_slots
    → keep_message m st ≡ some (record st { dropped = m.hdr ∷ st.dropped })
unfolding keep_message
keep_message-full m st xs q full = rw ((pending_alloc-none st.pool xs q).1 full, keep_message)

-- What becomes of a message that is not the one a receive waits for, behind the queue `xs`.
pub data Kept (m : Message) (st : Mpi) (xs : Cells) (r : Option Mpi) : Type 0 where
  queued :
      (i : ℕ) (p : Pool)
      → length xs < pending_slots
      → r ≡ some (record st { pool = p })
      → IsQueue p (xs ++ (i, m) ∷ [])
      → Kept m st xs r
  reported :
      length xs ≡ pending_slots
      → r ≡ some (record st { dropped = m.hdr ∷ st.dropped })
      → Kept m st xs r

-- On a well-formed queue such a message goes behind the last one while fewer than PENDING_SLOTS wait;
-- when exactly that many wait, it is reported as dropped, and the queue stays as it is.
pub keep_message-Kept :
    (m : Message) (st : Mpi) (xs : Cells) → IsQueue st.pool xs → Kept m st xs (keep_message m st)
keep_message-Kept m st xs q = elim (dec_lt (length xs) pending_slots) [
  | yes room ↦ let (i, p, run, q') = keep_message-append m st xs q room in queued i p room run q'
  | no full ↦
      let all : length xs ≡ pending_slots = omega (arith, length-le q) in
      reported all (keep_message-full m st xs q all)
]

module _ (source tag : ℤ) where
  pub oldest-cons_hit :
      (m : Message) (ms : List Message)
      → matches m.hdr source tag ≡ true
      → (oldest source tag (m ∷ ms) ≡ some m) × (others source tag (m ∷ ms) ≡ ms)
  unfolding oldest others
  oldest-cons_hit m ms h = (rw h, rw h)

  pub oldest-cons_miss :
      (m : Message) (ms : List Message)
      → matches m.hdr source tag ≡ false
      → (oldest source tag (m ∷ ms) ≡ oldest source tag ms)
        × (others source tag (m ∷ ms) ≡ m ∷ others source tag ms)
  unfolding oldest others
  oldest-cons_miss m ms h = (rw h, rw h)

  -- A queue stays unmatched when a message that does not match is put behind it.
  pub unmatched-append :
      (xs : Cells) (i : ℕ) (m : Message)
      → oldest source tag (messages xs) ≡ none
      → matches m.hdr source tag ≡ false
      → oldest source tag (messages (xs ++ (i, m) ∷ [])) ≡ none
  unmatched-append xs i m h miss = rw (messages-append xs ((i, m) ∷ [])) (
      (oldest-append_none source tag (messages xs) (m ∷ []) h).0
      ∙ (oldest-cons_miss m [] miss).0
      ∙ oldest-nil)
    where
      oldest-nil : oldest source tag [] ≡ none
      oldest-nil = unfold oldest in refl
