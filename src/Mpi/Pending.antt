-- ===== src/Mpi/Pending.antt =====
-- The unexpected-message queue of src/mpi.c: `struct pending`, the pool of 16 slots, and the four
-- functions on it. A pointer to a slot is its index, a null pointer is `none`; the walks along `next`
-- take fuel, and `none` as a result means that it ran out.
pub mod Chain
pub mod Take
pub mod Push
use neoos_libneoos.Base.{
  ℕ, zero, suc, ◌+◌, Bool, true, false, Option, none, some, if◌then◌else◌, ltb,
}
use neoos_libneoos.Base.Int.{ℤ}
use neoos_libneoos.Base.Census.{put}
use neoos_libneoos.Mpi.Defs.{Header, Message, matches}

-- PENDING_SLOTS
abbrev pub pending_slots : ℕ
pending_slots = 16

-- `struct pending`; `bytes` is the length of `msg.body`.
pub record Slot : Type 0 where
  pub next : Option ℕ
  pub msg : Message

-- `pending_pool`, `pending_used` and `pending_head`
pub record Pool : Type 0 where
  pub slot : ℕ → Slot
  pub used : ℕ → Bool
  pub head : Option ℕ

-- What `*pp` reads: `pp` is `&pending_head` (`none`), or `&slot->next`.
abbrev pub deref : Pool → Option ℕ → Option ℕ
deref p none = p.head
deref p (some j) = (p.slot j).next

-- `pending_pool[j].next = target`
abbrev pub set_next : Pool → ℕ → Option ℕ → Pool
set_next p j target = record p { slot = put p.slot j (record (p.slot j) { next = target }) }

-- `*pp = target`
abbrev pub write_link : Pool → Option ℕ → Option ℕ → Pool
write_link p none target = record p { head = target }
write_link p (some j) target = set_next p j target

-- The loop of `pending_take`, with `*pp` at hand as its last argument but one.
unfoldable pub take_loop : ℕ → ℤ → ℤ → Option ℕ → Option ℕ → Pool → Option (Option ℕ × Pool)
take_loop zero source tag pp cur p = none
take_loop (suc k) source tag pp none p = some (none, p)
take_loop (suc k) source tag pp (some i) p =
    let rest = take_loop k source tag (some i) (p.slot i).next p in
    if matches (p.slot i).msg.hdr source tag
    then some (some i, write_link p pp (p.slot i).next)
    else rest

-- `pending_take`
unfoldable pub pending_take : ℤ → ℤ → Pool → Option (Option ℕ × Pool)
unfolding take_loop
pending_take source tag p = take_loop (pending_slots + 1) source tag none p.head p

-- The loop of `pending_alloc`: `k` slots are left to look at, from slot `i` on.
unfoldable pub free_slot : ℕ → ℕ → (ℕ → Bool) → Option ℕ
free_slot zero i used = none
free_slot (suc k) i used = if used i then free_slot k (i + 1) used else some i

-- `pending_alloc`
unfoldable pub pending_alloc : Pool → Option (ℕ × Pool)
unfolding free_slot
pending_alloc p = elim (free_slot pending_slots 0 p.used) [
  | none ↦ none
  | some i ↦ some (i, record p { used = put p.used i true })
]

-- `pending_release`: a pointer into the pool has one index, below `pending_slots`.
unfoldable pub pending_release : ℕ → Pool → Pool
pending_release i p = if ltb i pending_slots then record p { used = put p.used i false } else p

-- What `recv_match` writes into a slot that it got: `hdr`, `bytes` and `data`.
abbrev pub fill : ℕ → Message → Pool → Pool
fill i m p = record p { slot = put p.slot i (record (p.slot i) { msg = m }) }

-- The walk of `pending_push` to the last slot, and the write behind it.
unfoldable pub push_loop : ℕ → ℕ → ℕ → Pool → Option Pool
push_loop zero i t p = none
push_loop (suc k) i t p = elim ((p.slot t).next) [
  | none ↦ some (set_next p t (some i))
  | some u ↦ push_loop k i u p
]

-- `pending_push`
unfoldable pub pending_push : ℕ → Pool → Option Pool
unfolding push_loop
pending_push i p =
    let q = set_next p i none in
    elim (q.head) [
      | none ↦ some (record q { head = some i })
      | some t ↦ push_loop pending_slots i t q
    ]

-- The start: static storage is zero.
abbrev pub empty_pool : Message → Pool
empty_pool m = record {
  slot = λ _. record { next = none; msg = m };
  used = λ _. false;
  head = none;
}
