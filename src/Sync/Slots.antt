-- ===== src/Sync/Slots.antt =====
-- `thread_create` and `thread_trampoline` of src/thread.c: the table of start slots that any number of
-- threads claim and release.
pub mod Safety
mod Tests
use neoos_libneoos.Base.{ℕ, ◌+◌, ◌<◌, ◌≡◌, Bool, true, false}
use neoos_libneoos.Base.Census.{put}

-- MAX_THREAD_SLOTS
abbrev pub max_thread_slots : ℕ
max_thread_slots = 1024

-- Where a thread stands. `f` stands for the pair of `fn` and `arg` that a caller passed, `g` for the
-- pair that a new thread read from its slot, and `s` for the slot.
pub data Pc : Type 0 where
  unborn : Pc  -- not created yet
  outside : Pc  -- in no call
  scanning : (f s : ℕ) → Pc  -- before the compare-and-exchange on slot `s`
  claimed : (f s : ℕ) → Pc  -- before the writes to the slot
  written : (f s : ℕ) → Pc  -- before `__sys_thread_create`
  refused : (s : ℕ) → Pc  -- after it failed, before the release
  starting : (f s : ℕ) → Pc  -- the new thread, before it reads the slot
  leaving : (f g s : ℕ) → Pc  -- before it releases the slot
  released : (f g : ℕ) → Pc  -- before `__tls_setup_self`
  running : (f g : ℕ) → Pc  -- about to call the function

-- `in_use` of each slot, and its `fn` and `arg`.
pub record Table : Type 0 where
  pub in_use : ℕ → Bool
  pub entry : ℕ → ℕ

-- One access by one thread.
pub data Move (t : Table) : Pc → Table → Pc → Type 0 where
  call : (f : ℕ) → Move t outside t (scanning f 0)
  win :
      {f s : ℕ}
      → t.in_use s ≡ false
      → Move t (scanning f s) (record t { in_use = put t.in_use s true }) (claimed f s)
  lose :
      {f s : ℕ}
      → t.in_use s ≡ true
      → s + 1 < max_thread_slots
      → Move t (scanning f s) t (scanning f (s + 1))
  full : {f s : ℕ} → t.in_use s ≡ true → s + 1 ≡ max_thread_slots → Move t (scanning f s) t outside
  write : {f s : ℕ} → Move t (claimed f s) (record t { entry = put t.entry s f }) (written f s)
  refuse : {f s : ℕ} → Move t (written f s) t (refused s)
  give_back : {s : ℕ} → Move t (refused s) (record t { in_use = put t.in_use s false }) outside
  read : {f s : ℕ} → Move t (starting f s) t (leaving f (t.entry s) s)
  release :
      {f g s : ℕ}
      → Move t (leaving f g s) (record t { in_use = put t.in_use s false }) (released f g)
  set_up : {f g : ℕ} → Move t (released f g) t (running f g)
  no_storage : {f g : ℕ} → Move t (released f g) t outside  -- exit with 127
  finish : {f g : ℕ} → Move t (running f g) t outside

pub record System : Type 0 where
  pub table : Table
  pub pc : ℕ → Pc

-- A step of the system. `__sys_thread_create` starts a thread `j` that did not exist.
pub data Step (n : ℕ) (s : System) : System → Type 0 where
  move :
      (i : ℕ) {t : Table} {p : Pc}
      → i < n
      → Move s.table (s.pc i) t p
      → Step n s (record { table = t; pc = put s.pc i p })
  create :
      (i j : ℕ) {f k : ℕ}
      → i < n
      → j < n
      → s.pc i ≡ written f k
      → s.pc j ≡ unborn
      → Step n s (record { table = s.table; pc = put (put s.pc i outside) j (starting f k) })

-- Thread 0 runs, with all slots free.
abbrev pub init : System
init = record {
  table = record { in_use = λ _. false; entry = λ _. 0 };
  pc = put (λ _. unborn) 0 outside;
}

pub data Reach (n : ℕ) : System → Type 0 where
  start : Reach n init
  later : {s t : System} → Reach n s → Step n s t → Reach n t
