-- ===== src/Sync/Semaphore.antt =====
-- `sem_wait`, `sem_timedwait_relative`, `sem_trywait` and `sem_post` of src/semaphore.c, on one
-- semaphore that `n` threads use. `sem_post` past INT_MAX would overflow the count and is left out.
pub mod Safety
use neoos_libneoos.Base.{
  ℕ, ◌+◌, ◌-◌, ◌^◌, ◌<◌, ◌≡◌, ◌≢◌, Bool, true, Option, none, some, List, [], ◌∷◌,
}
use neoos_libneoos.Base.Int.{ℤ, pos, minus}
use neoos_libneoos.Base.Census.{put}

-- Where a thread stands; `timed` is whether the wait has a timeout, `v` is what it loaded.
pub data Pc : Type 0 where
  outside : Pc
  looking : (timed : Bool) → Pc  -- head of the loop of `sem_wait_common`
  loaded : (timed : Bool) → (v : ℕ) → Pc  -- after the load
  asleep : (timed : Bool) → Pc  -- inside `futex_wait` or `futex_wait_timeout`
  trying : (v : ℕ) → Pc  -- in the loop of `sem_trywait`
  posting : Pc  -- in `sem_post`, before `futex_wake`

-- ETIMEDOUT and EAGAIN
abbrev pub rc_etimedout : ℤ
rc_etimedout = minus 110

abbrev pub rc_eagain : ℤ
rc_eagain = minus 11

-- `wait` is `sem_wait` or `sem_timedwait_relative`.
pub data Call : Type 0 where
  wait : Call
  trywait : Call
  sem_post : Call

-- A call that returns, with its code.
pub data Event : Type 0 where
  returned : Call → ℤ → Event

pub record Count : Type 0 where
  pub value : ℕ

-- The compare-and-exchange of `v` for `v - 1` that wins.
abbrev pub take : Count → Count
take c = record { value = c.value - 1 }

abbrev pub add : Count → Count
add c = record { value = c.value + 1 }

-- One atomic access by one thread, and what its call returns after it, if it returns. A weak exchange may
-- fail for no reason.
pub data Move (c : Count) : Pc → Count → Pc → Option Event → Type 0 where
  call_wait : (timed : Bool) → Move c outside c (looking timed) none
  load : {timed : Bool} → Move c (looking timed) c (loaded timed c.value) none
  wait_take :
      {timed : Bool} {v : ℕ}
      → 0 < v
      → c.value ≡ v
      → Move c (loaded timed v) (take c) outside (some (returned wait (pos 0)))
  wait_lose : {timed : Bool} {v : ℕ} → 0 < v → Move c (loaded timed v) c (looking timed) none
  sleep :
      {timed : Bool} {v : ℕ} → v ≡ 0 → c.value ≡ 0 → Move c (loaded timed v) c (asleep timed) none
  changed :
      {timed : Bool} {v : ℕ} → v ≡ 0 → c.value ≢ 0 → Move c (loaded timed v) c (looking timed) none
  interrupt : {timed : Bool} {v : ℕ} → v ≡ 0 → Move c (loaded timed v) c (looking timed) none
  spurious : {timed : Bool} → Move c (asleep timed) c (looking timed) none
  timeout :
      {timed : Bool}
      → timed ≡ true
      → Move c (asleep timed) c outside (some (returned wait rc_etimedout))
  try_load : Move c outside c (trying c.value) none
  try_take :
      {v : ℕ}
      → 0 < v
      → c.value ≡ v
      → Move c (trying v) (take c) outside (some (returned trywait (pos 0)))
  try_lose : {v : ℕ} → 0 < v → Move c (trying v) c (trying c.value) none
  try_empty : {v : ℕ} → v ≡ 0 → Move c (trying v) c outside (some (returned trywait rc_eagain))
  post : c.value + 1 < 2 ^ 31 → Move c outside (add c) posting none

-- The count, where each thread stands, and the calls that have returned, the last first.
pub record System : Type 0 where
  pub count : Count
  pub pc : ℕ → Pc
  pub log : List Event

abbrev pub note : Option Event → List Event → List Event
note none log = log
note (some e) log = e ∷ log

-- `futex_wake(…, 1)` wakes a sleeper if there is one; then `sem_post` returns.
pub data Step (n : ℕ) (s : System) : System → Type 0 where
  move :
      (i : ℕ) {c : Count} {p : Pc} {e : Option Event}
      → i < n
      → Move s.count (s.pc i) c p e
      → Step n s (record { count = c; pc = put s.pc i p; log = note e s.log })
  wake_one :
      (i j : ℕ) {timed : Bool}
      → i < n
      → j < n
      → s.pc i ≡ posting
      → s.pc j ≡ asleep timed
      → Step n s (record {
        count = s.count;
        pc = put (put s.pc i outside) j (looking timed);
        log = returned sem_post (pos 0) ∷ s.log;
      })
  wake_none :
      (i : ℕ)
      → i < n
      → s.pc i ≡ posting
      → ((j : ℕ) (timed : Bool) → j < n → s.pc j ≢ asleep timed)
      → Step n s (record {
        count = s.count;
        pc = put s.pc i outside;
        log = returned sem_post (pos 0) ∷ s.log;
      })

-- After `sem_init` with `initial`. It stores `(int)value`, so a value from 2^31 on becomes a negative
-- count; that is left out.
abbrev pub init : ℕ → System
init initial = record { count = record { value = initial }; pc = λ _. outside; log = [] }

pub data Reach (n initial : ℕ) : System → Type 0 where
  start : initial < 2 ^ 31 → Reach n initial (init initial)
  later : {s t : System} → Reach n initial s → Step n s t → Reach n initial t
