-- ===== src/Sync/Join.antt =====
-- `pthread_create`, `pthread_join` and `pthread_exit` of src/pthread.c: the table that carries the value
-- of a thread to the one that joins it. What the code does while it holds `pt_lock` is one step, which
-- the theorems on the mutex allow; outside, each access is. Threads are named by their kernel tids,
-- from 1 on. That the kernel gives no tid twice is assumed; no file of the repository says it. Callers
-- of `pthread_create` pass a routine and no attributes; calls of `thread_join` that the kernel refuses
-- change nothing and are left out.
pub mod Scan
pub mod Right
pub mod Effect
pub mod Moves
pub mod Marks
pub mod Keep
pub mod Collect
pub mod Deliver
pub mod Value
mod Tests
use neoos_libneoos.Base.{
  ℕ, zero, suc, ◌+◌, ◌<◌, ◌≡◌, ◌==◌, Bool, true, false, not, ◌&&◌, Option, none, some,
  if◌then◌else◌,
}
use neoos_libneoos.Base.Census.{put}

-- PTHREAD_MAX
abbrev pub pthread_max : ℕ
pthread_max = 16

-- `struct pthread_slot`; `start` stands for the pair of `start` and `arg`.
pub record ThreadSlot : Type 0 where
  pub in_use : Bool
  pub tid : ℕ
  pub finished : Bool
  pub start : ℕ
  pub retval : ℕ

-- A loop over `k` slots from `i` on, which stops at the first that passes a test.
unfoldable pub first_slot : (ThreadSlot → Bool) → ℕ → ℕ → (ℕ → ThreadSlot) → Option ℕ
first_slot test zero i slots = none
first_slot test (suc k) i slots =
    let rest = first_slot test k (i + 1) slots in if test (slots i) then some i else rest

-- `slot_for_tid`
unfoldable pub slot_for_tid : ℕ → (ℕ → ThreadSlot) → Option ℕ
unfolding first_slot
slot_for_tid tid slots = first_slot (λ s. s.in_use && (s.tid == tid)) pthread_max 0 slots

-- The loop of `pthread_create`.
unfoldable pub unused_slot : (ℕ → ThreadSlot) → Option ℕ
unfolding first_slot
unused_slot slots = first_slot (λ s. not s.in_use) pthread_max 0 slots

-- A slot as `pthread_create` claims it.
abbrev pub fresh_slot : ℕ → ThreadSlot
fresh_slot f = record { in_use = true; tid = 0; finished = false; start = f; retval = 0 }

-- What `pthread_exit` by thread `self` writes.
unfoldable pub exit_slots : ℕ → ℕ → (ℕ → ThreadSlot) → ℕ → ThreadSlot
unfolding slot_for_tid
exit_slots self v slots = elim (slot_for_tid self slots) [
  | none ↦ slots
  | some k ↦ put slots k (record (slots k) { retval = v; finished = true })
]

-- What `pthread_join` stores at `retval`, and the table after it.
unfoldable pub collected : ℕ → (ℕ → ThreadSlot) → ℕ × (ℕ → ThreadSlot)
unfolding slot_for_tid
collected t slots = elim (slot_for_tid t slots) [
  | none ↦ (0, slots)
  | some k ↦ ((slots k).retval, put slots k (record (slots k) { in_use = false }))
]

-- What a thread is to the table: made by `thread_create` or the first of all; made by `pthread_create`,
-- with its slot; or made so, and ended before it could write its tid.
pub data Own : Type 0 where
  foreign : Own
  bound : (k : ℕ) → Own
  lost : (k : ℕ) → Own

-- Where a thread stands between its start and `thread_exit`.
pub data Place : Type 0 where
  routine : Place  -- in its routine, in no call
  creating : (f k : ℕ) → Place  -- before `thread_create`
  failing : (k : ℕ) → Place  -- after it failed, before the slot is given back
  fetching : (t : ℕ) → Place  -- after `thread_join`, before the look into the table
  returned : (v : ℕ) → Place  -- before `s->retval = r`
  recorded : (v : ℕ) → Place  -- before `finished` is set
  leaving : (v : ℕ) → Place  -- before `thread_exit`

-- Where a thread stands; `v` is the value with which it ended, 0 if with none.
pub data Pc : Type 0 where
  unborn : Pc
  entering : (f k : ℕ) → Pc  -- in `pthread_trampoline`, before the store of the tid
  tagged : (f k : ℕ) → Pc  -- before it reads `start` and `arg`
  active : (o : Own) (p : Place) → Pc
  ended : (o : Own) (v : ℕ) → Pc  -- after `thread_exit`
  reaped : (o : Own) (v : ℕ) (by : Option ℕ) → Pc  -- `thread_join` has returned, in `pthread_join` of `by`
  gone : (o : Own) → Pc  -- `pthread_join` has looked into the table

-- The value with which a thread ends that calls `pthread_exit`.
abbrev pub exit_value : Own → ℕ → ℕ
exit_value (bound k) v = v
exit_value _ v = 0

-- One access by thread `j`.
pub data Move (slots : ℕ → ThreadSlot) (j : ℕ) : Pc → (ℕ → ThreadSlot) → Pc → Type 0 where
  claim :
      {o : Own} (f : ℕ) {k : ℕ}
      → unused_slot slots ≡ some k
      → Move slots j (active o routine) (put slots k (fresh_slot f)) (active o (creating f k))
  full :
      {o : Own}
      → unused_slot slots ≡ none
      → Move slots j (active o routine) slots (active o routine)
  refuse : {o : Own} {f k : ℕ} → Move slots j (active o (creating f k)) slots (active o (failing k))
  give_back :
      {o : Own} {k : ℕ}
      → Move slots j
          (active o (failing k))
          (put slots k (record (slots k) { in_use = false }))
          (active o routine)
  no_storage : {f k : ℕ} → Move slots j (entering f k) slots (ended (lost k) 0)
  store_tid :
      {f k : ℕ}
      → Move slots j (entering f k) (put slots k (record (slots k) { tid = j })) (tagged f k)
  enter : {f k : ℕ} → Move slots j (tagged f k) slots (active (bound k) routine)
  return :
      {k : ℕ} (v : ℕ)
      → Move slots j (active (bound k) routine) slots (active (bound k) (returned v))
  keep :
      {k v : ℕ}
      → Move slots j
          (active (bound k) (returned v))
          (put slots k (record (slots k) { retval = v }))
          (active (bound k) (recorded v))
  finish :
      {k v : ℕ}
      → Move slots j
          (active (bound k) (recorded v))
          (put slots k (record (slots k) { finished = true }))
          (active (bound k) (leaving v))
  exit :
      {o : Own} (v : ℕ)
      → Move slots j (active o routine) (exit_slots j v slots) (active o (leaving (exit_value o v)))
  quit : {o : Own} → Move slots j (active o routine) slots (active o (leaving 0))  -- `thread_exit`
  end : {o : Own} {v : ℕ} → Move slots j (active o (leaving v)) slots (ended o v)

pub record System : Type 0 where
  pub slots : ℕ → ThreadSlot
  pub pc : ℕ → Pc

-- A step of the system, with tids below `n`.
pub data Step (n : ℕ) (s : System) : System → Type 0 where
  move :
      (j : ℕ) {t : ℕ → ThreadSlot} {p : Pc}
      → j < n
      → Move s.slots j (s.pc j) t p
      → Step n s (record { slots = t; pc = put s.pc j p })
  -- The `thread_create` of `pthread_create` starts thread `j`.
  create :
      (i j : ℕ) {o : Own} {f k : ℕ}
      → i < n
      → j < n
      → 0 < j
      → s.pc i ≡ active o (creating f k)
      → s.pc j ≡ unborn
      → Step n s
          (record { slots = s.slots; pc = put (put s.pc i (active o routine)) j (entering f k) })
  -- A thread starts thread `j` by `thread_create` itself.
  spawn :
      (j : ℕ)
      → j < n
      → 0 < j
      → s.pc j ≡ unborn
      → Step n s (record { slots = s.slots; pc = put s.pc j (active foreign routine) })
  -- The `thread_join` of `pthread_join` by thread `i` reaps thread `t`.
  reap :
      (i t : ℕ) {o own : Own} {v : ℕ}
      → i < n
      → t < n
      → s.pc i ≡ active o routine
      → s.pc t ≡ ended own v
      → Step n s (record {
        slots = s.slots;
        pc = put (put s.pc t (reaped own v (some i))) i (active o (fetching t));
      })
  -- A thread reaps thread `t` by `thread_join` itself.
  reap_alone :
      (t : ℕ) {own : Own} {v : ℕ}
      → t < n
      → s.pc t ≡ ended own v
      → Step n s (record { slots = s.slots; pc = put s.pc t (reaped own v none) })
  -- `pthread_join` by thread `i` looks into the table; the reaped thread is `gone` from here on.
  collect :
      (i t : ℕ) {o own : Own} {v : ℕ} {by : Option ℕ}
      → i < n
      → t < n
      → s.pc i ≡ active o (fetching t)
      → s.pc t ≡ reaped own v by
      → Step n s (record {
        slots = (collected t s.slots).1;
        pc = put (put s.pc i (active o routine)) t (gone own);
      })

-- Thread 1 runs, with all slots free.
abbrev pub init : System
init = record {
  slots = λ _. record { in_use = false; tid = 0; finished = false; start = 0; retval = 0 };
  pc = put (λ _. unborn) 1 (active foreign routine);
}

pub data Reach (n : ℕ) : System → Type 0 where
  start : Reach n init
  later : {s t : System} → Reach n s → Step n s t → Reach n t
