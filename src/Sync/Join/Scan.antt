-- ===== src/Sync/Join/Scan.antt =====
-- The two scans of src/pthread.c over its table of slots.
use neoos_libneoos.Base.{
  ℕ, zero, suc, ◌+◌, ◌≤◌, ◌<◌, ◌≡◌, arith, Bool, true, false, not, ◌&&◌, ◌==◌, none, some, ap,
  ℕ_discrete,
}
use neoos_libneoos.Sync.Join.{ThreadSlot, pthread_max, first_slot, slot_for_tid, unused_slot}

-- What a scan finds passes its test and is in the table.
first_slot-some :
    (test : ThreadSlot → Bool) (k i j : ℕ) (slots : ℕ → ThreadSlot)
    → first_slot test k i slots ≡ some j
    → (test (slots j) ≡ true) × (j < k + i)
unfolding first_slot
first_slot-some test zero i j slots h = cc
first_slot-some test (suc k) i j slots h = ground (arith, first_slot-some test k (i + 1) j slots)

-- A scan that finds nothing has seen each slot fail.
first_slot-none :
    (test : ThreadSlot → Bool) (k i : ℕ) (slots : ℕ → ThreadSlot)
    → first_slot test k i slots ≡ none
    → (j : ℕ) → i ≤ j
    → j < k + i
    → test (slots j) ≡ false
unfolding first_slot
first_slot-none test zero i slots h j le lt = absurd (omega arith)
first_slot-none test (suc k) i slots h j le lt = elim (ℕ_discrete i j) [
  | yes e ↦ ground (arith, ap slots e)
  | no ne ↦
      let later : first_slot test k (i + 1) slots ≡ none = ground arith in
      first_slot-none test k (i + 1) slots later j (omega arith) (omega arith)
]

pub unused_slot-free :
    (slots : ℕ → ThreadSlot) (k : ℕ)
    → unused_slot slots ≡ some k
    → ((slots k).in_use ≡ false) × (k < pthread_max)
unfolding unused_slot
unused_slot-free slots k h =
    ground (arith, first_slot-some (λ s. not s.in_use) pthread_max 0 k slots h)

pub slot_for_tid-some :
    (tid : ℕ) (slots : ℕ → ThreadSlot) (k : ℕ)
    → slot_for_tid tid slots ≡ some k
    → ((slots k).in_use ≡ true) × ((slots k).tid ≡ tid) × (k < pthread_max)
unfolding slot_for_tid
slot_for_tid-some tid slots k h =
    ground (arith, first_slot-some (λ s. s.in_use && (s.tid == tid)) pthread_max 0 k slots h)

pub slot_for_tid-none :
    (tid : ℕ) (slots : ℕ → ThreadSlot) (k : ℕ)
    → slot_for_tid tid slots ≡ none
    → k < pthread_max
    → (slots k).in_use ≡ true
    → (slots k).tid ≡ tid
    → ⊥
unfolding slot_for_tid
slot_for_tid-none tid slots k h lt used same = ground (
  arith,
  first_slot-none (λ s. s.in_use && (s.tid == tid)) pthread_max 0 slots h k (omega arith)
      (omega arith),
)
