-- ===== src/Sync/Condvar.antt =====
-- `pthread_cond_wait`, `pthread_cond_timedwait_relative`, `pthread_cond_signal` and
-- `pthread_cond_broadcast` of src/pthread.c, on one condition variable and one mutex that `n` threads
-- use. The mutex is its owner, as the theorems on `pthread_mutex_lock` and `pthread_mutex_unlock` allow.
pub mod Right
pub mod Safety
mod Tests
use neoos_libneoos.Base.{
  ℕ, ◌+◌, ◌%◌, ◌^◌, ◌<◌, ◌≡◌, ◌≢◌, Bool, true, false, Option, none, some, if◌then◌else◌, ltb,
}
use neoos_libneoos.Base.Int.{ℤ, pos, minus, eqb_ℤ}
use neoos_libneoos.Base.Census.{put}

-- ETIMEDOUT, EAGAIN and EINTR
abbrev pub rc_etimedout : ℤ
rc_etimedout = minus 110

abbrev pub rc_eagain : ℤ
rc_eagain = minus 11

abbrev pub rc_eintr : ℤ
rc_eintr = minus 4

-- What `cond_wait_common` makes of the result of the futex call.
unfoldable pub wait_result : ℤ → ℤ
wait_result rc = if eqb_ℤ rc rc_etimedout then rc_etimedout else pos 0

-- Where a thread stands. `timed` is whether the wait has a timeout, `v` what it loaded from `seq`, `g`
-- the number of additions to `seq` before that; `held` is whether a signaller holds the mutex, `all`
-- whether it broadcasts, and `b` the number of additions up to its own.
pub data Pc : Type 0 where
  outside : Pc
  holding : Pc
  loaded : (timed : Bool) (v g : ℕ) → Pc  -- before `pthread_mutex_unlock`
  released : (timed : Bool) (v g : ℕ) → Pc  -- before the futex call
  asleep : (timed : Bool) (v g : ℕ) → Pc  -- inside it
  woken : (rc : ℤ) → Pc  -- before `pthread_mutex_lock`
  returned : (r : ℤ) → Pc  -- the wait has returned `r`
  signalling : (held all : Bool) (b : ℕ) → Pc  -- after the addition, before `futex_wake`

-- `seq`, the owner of the mutex, the number of additions to `seq`, how many of these had taken place
-- when the last call ended that left no sleeper behind, and how many when each thread last gave the mutex
-- up.
pub record Cond : Type 0 where
  pub seq : ℕ
  pub owner : Option ℕ
  pub bumps : ℕ
  pub served : ℕ
  pub freed : ℕ → ℕ

-- Where a signaller goes on.
abbrev pub resume : Bool → Pc
resume true = holding
resume false = outside

-- `__atomic_fetch_add(&c->seq, 1, …)`, which wraps around.
abbrev pub bump : Cond → Cond
bump c = record c { seq = (c.seq + 1) % 2 ^ 32; bumps = c.bumps + 1 }

-- `pthread_mutex_unlock(m)` by thread `i`
abbrev pub free : ℕ → Cond → Cond
free i c = record c { owner = none; freed = put c.freed i c.bumps }

-- One atomic access by thread `i`.
pub data Move (c : Cond) (i : ℕ) : Pc → Cond → Pc → Type 0 where
  lock : c.owner ≡ none → Move c i outside (record c { owner = some i }) holding
  unlock : Move c i holding (free i c) outside
  load : (timed : Bool) → Move c i holding c (loaded timed c.seq c.bumps)
  release : {timed : Bool} {v g : ℕ} → Move c i (loaded timed v g) (free i c) (released timed v g)
  sleep : {timed : Bool} {v g : ℕ} → c.seq ≡ v → Move c i (released timed v g) c (asleep timed v g)
  changed : {timed : Bool} {v g : ℕ} → c.seq ≢ v → Move c i (released timed v g) c (woken rc_eagain)
  interrupt : {timed : Bool} {v g : ℕ} → Move c i (released timed v g) c (woken rc_eintr)
  interrupt_sleep : {timed : Bool} {v g : ℕ} → Move c i (asleep timed v g) c (woken rc_eintr)
  spurious : {timed : Bool} {v g : ℕ} → Move c i (asleep timed v g) c (woken (pos 0))
  timeout : {v g : ℕ} → Move c i (asleep true v g) c (woken rc_etimedout)
  relock :
      {rc : ℤ}
      → c.owner ≡ none
      → Move c i (woken rc) (record c { owner = some i }) (returned (wait_result rc))
  back : {r : ℤ} → Move c i (returned r) c holding
  signal_outside : (all : Bool) → Move c i outside (bump c) (signalling false all (c.bumps + 1))
  signal_holding : (all : Bool) → Move c i holding (bump c) (signalling true all (c.bumps + 1))

pub record System : Type 0 where
  pub cond : Cond
  pub pc : ℕ → Pc

-- A thread after a wake of all sleepers.
abbrev pub wake : Pc → Pc
wake (asleep timed v g) = woken (pos 0)
wake p = p

abbrev pub IsAsleep : Pc → Type 0
IsAsleep (asleep timed v g) = Unit
IsAsleep _ = ⊥

abbrev pub later_of : ℕ → ℕ → ℕ
later_of a b = if ltb a b then b else a

-- A step of the system. `futex_wake` with 1 wakes a sleeper if there is one, and with 0x7FFFFFFF all.
pub data Step (n : ℕ) (s : System) : System → Type 0 where
  move :
      (i : ℕ) {c : Cond} {p : Pc}
      → i < n
      → Move s.cond i (s.pc i) c p
      → Step n s (record { cond = c; pc = put s.pc i p })
  wake_one :
      (i j : ℕ) {held timed : Bool} {b v g : ℕ}
      → i < n
      → j < n
      → s.pc i ≡ signalling held false b
      → s.pc j ≡ asleep timed v g
      → Step n s (record { cond = s.cond; pc = put (put s.pc i (resume held)) j (woken (pos 0)) })
  wake_none :
      (i : ℕ) {held : Bool} {b : ℕ}
      → i < n
      → s.pc i ≡ signalling held false b
      → ((j : ℕ) → j < n → IsAsleep (s.pc j) → ⊥)
      → Step n s (record {
        cond = record s.cond { served = later_of s.cond.served b };
        pc = put s.pc i (resume held);
      })
  wake_all :
      (i : ℕ) {held : Bool} {b : ℕ}
      → i < n
      → n < 2 ^ 31
      → s.pc i ≡ signalling held true b
      → Step n s (record {
        cond = record s.cond { served = later_of s.cond.served b };
        pc = put (λ j. wake (s.pc j)) i (resume held);
      })

-- After `pthread_cond_init`, or with PTHREAD_COND_INITIALIZER.
abbrev pub init : System
init = record {
  cond = record { seq = 0; owner = none; bumps = 0; served = 0; freed = λ _. 0 };
  pc = λ _. outside;
}

pub data Reach (n : ℕ) : System → Type 0 where
  start : Reach n init
  later : {s t : System} → Reach n s → Step n s t → Reach n t
