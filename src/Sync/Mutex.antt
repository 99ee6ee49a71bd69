-- ===== src/Sync/Mutex.antt =====
-- `pthread_mutex_lock`, `pthread_mutex_trylock` and `pthread_mutex_unlock` of src/pthread.c, on one
-- mutex that `n` threads use.
pub mod Safety
use neoos_libneoos.Base.{ℕ, ◌-◌, ◌<◌, ◌≡◌, ◌≢◌}
use neoos_libneoos.Base.Census.{put}

-- Where a thread stands.
pub data Pc : Type 0 where
  outside : Pc  -- in no call, and not holding the mutex
  swapping : Pc  -- before `c = __atomic_exchange_n(&m->state, 2, …)`
  waiting : Pc  -- before `futex_wait(&m->state, 2)`
  asleep : Pc  -- inside `futex_wait`
  holding : Pc  -- between a lock that succeeded and the `fetch_sub` of unlock
  clearing : Pc  -- in unlock, before the store of 0
  waking : Pc  -- in unlock, before `futex_wake`

-- One atomic access by one thread: the state of the mutex and the place of the thread, before and after.
-- A caller unlocks only what it holds.
pub data Move (w : ℕ) : Pc → ℕ → Pc → Type 0 where
  lock_free : w ≡ 0 → Move w outside 1 holding
  lock_contended : w ≡ 2 → Move w outside w waiting
  lock_taken : w ≢ 0 → w ≢ 2 → Move w outside w swapping
  try_free : w ≡ 0 → Move w outside 1 holding
  try_busy : w ≢ 0 → Move w outside w outside
  swap_free : w ≡ 0 → Move w swapping 2 holding
  swap_taken : w ≢ 0 → Move w swapping 2 waiting
  sleep : w ≡ 2 → Move w waiting w asleep
  changed : w ≢ 2 → Move w waiting w swapping  -- -EAGAIN
  interrupt : Move w waiting w swapping  -- -EINTR
  spurious : Move w asleep w swapping
  unlock_only : w ≡ 1 → Move w holding 0 outside
  unlock_shared : w ≢ 1 → Move w holding (w - 1) clearing
  clear : Move w clearing 0 waking

pub record System : Type 0 where
  pub word : ℕ  -- m->state
  pub pc : ℕ → Pc

-- A step of the system. `futex_wake(…, 1)` wakes a sleeper if there is one.
pub data Step (n : ℕ) (s : System) : System → Type 0 where
  move :
      (i : ℕ) {w : ℕ} {p : Pc}
      → i < n
      → Move s.word (s.pc i) w p
      → Step n s (record { word = w; pc = put s.pc i p })
  wake_one :
      (i j : ℕ)
      → i < n
      → j < n
      → s.pc i ≡ waking
      → s.pc j ≡ asleep
      → Step n s (record { word = s.word; pc = put (put s.pc i outside) j swapping })
  wake_none :
      (i : ℕ)
      → i < n
      → s.pc i ≡ waking
      → ((j : ℕ) → j < n → s.pc j ≢ asleep)
      → Step n s (record { word = s.word; pc = put s.pc i outside })

-- After `pthread_mutex_init`, or with PTHREAD_MUTEX_INITIALIZER.
abbrev pub init : System
init = record { word = 0; pc = λ _. outside }

pub data Reach (n : ℕ) : System → Type 0 where
  start : Reach n init
  later : {s t : System} → Reach n s → Step n s t → Reach n t
