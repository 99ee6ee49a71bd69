-- ===== src/Sync/Join/Right.antt =====
-- What the table of src/pthread.c holds for each thread.
use neoos_libneoos.Base.{
  sym, subst, ℕ, ◌+◌, ◌<◌, ◌≡◌, ◌≢◌, arith, Bool, true, false, ◌==◌, if◌then◌else◌, some,
}
use neoos_libneoos.Base.Census.{census}
use neoos_libneoos.Sync.Join.{
  pthread_max, ThreadSlot, Own, foreign, bound, lost, Place, routine, creating, failing, fetching,
  returned, recorded, leaving, Pc, unborn, entering, tagged, active, ended, reaped, gone,
}

-- Whether slot `s` belongs to a thread by what it is, by where it stands, and by either.
abbrev pub own_holds : ℕ → Own → ℕ
own_holds s foreign = 0
own_holds s (bound k) = if s == k then 1 else 0
own_holds s (lost k) = if s == k then 1 else 0

abbrev pub place_holds : ℕ → Place → ℕ
place_holds s (creating f k) = if s == k then 1 else 0
place_holds s (failing k) = if s == k then 1 else 0
place_holds s _ = 0

abbrev pub holds : ℕ → Pc → ℕ
holds s unborn = 0
holds s (entering f k) = if s == k then 1 else 0
holds s (tagged f k) = if s == k then 1 else 0
holds s (active o p) = own_holds s o + place_holds s p
holds s (ended o v) = own_holds s o
holds s (reaped o v by) = own_holds s o
holds s (gone (lost k)) = if s == k then 1 else 0
holds s (gone _) = 0

abbrev pub taken : Bool → ℕ
taken true = 1
taken false = 0

-- The return value in its slot, while a thread `j` runs.
abbrev pub Kept : ThreadSlot → Place → Type 0
Kept s (returned v) = Unit
Kept s (recorded v) = s.retval ≡ v
Kept s (leaving v) = s.retval ≡ v
Kept s _ = s.retval ≡ 0

abbrev pub Silent : Place → Type 0
Silent (returned v) = ⊥
Silent (recorded v) = ⊥
Silent (leaving v) = v ≡ 0
Silent _ = Unit

-- What is right of thread `j` by what it is.
abbrev pub RightOwn : (ℕ → ThreadSlot) → ℕ → Own → Place → Type 0
RightOwn slots j foreign p = Silent p
RightOwn slots j (bound k) p = ((slots k).tid ≡ j) × Kept (slots k) p
RightOwn slots j (lost k) p = ⊥

abbrev pub Fresh : ThreadSlot → ℕ → ℕ → Type 0
Fresh s f tid = (s.start ≡ f) × (s.retval ≡ 0) × (s.tid ≡ tid)

abbrev pub RightPlace : (ℕ → ThreadSlot) → Place → Type 0
RightPlace slots (creating f k) = Fresh (slots k) f 0
RightPlace slots _ = Unit

-- What is right of the end of thread `j`, which ended with `v`.
abbrev pub RightEnd : (ℕ → ThreadSlot) → ℕ → Own → ℕ → Type 0
RightEnd slots j foreign v = v ≡ 0
RightEnd slots j (bound k) v = ((slots k).tid ≡ j) × ((slots k).retval ≡ v)
RightEnd slots j (lost k) v = (v ≡ 0) × ((slots k).tid ≡ 0)

abbrev pub Right : (ℕ → ThreadSlot) → ℕ → Pc → Type 0
Right slots j unborn = Unit
Right slots j (entering f k) = Fresh (slots k) f 0
Right slots j (tagged f k) = Fresh (slots k) f j
Right slots j (active o p) = RightOwn slots j o p × RightPlace slots p
Right slots j (ended o v) = RightEnd slots j o v
Right slots j (reaped o v by) = RightEnd slots j o v
Right slots j (gone o) = Unit

abbrev pub MarksOwn : ℕ → Own → Type 0
MarksOwn s (bound k) = k ≡ s
MarksOwn s _ = ⊥

-- A slot with a tid belongs to the thread of that tid.
abbrev pub Marks : ℕ → Pc → Type 0
Marks s (tagged f k) = k ≡ s
Marks s (active o p) = MarksOwn s o
Marks s (ended o v) = MarksOwn s o
Marks s (reaped o v by) = MarksOwn s o
Marks s _ = ⊥

-- A thread that is about to fetch the value of another has reaped it.
abbrev pub Fetches : ℕ → (ℕ → Pc) → ℕ → Pc → Type 0
Fetches n pc i (active o (fetching t)) =
    (t < n) × ((own : Own) × (v : ℕ) × (pc t ≡ reaped own v (some i)))
Fetches n pc i _ = Unit

pub record Inv (n : ℕ) (slots : ℕ → ThreadSlot) (pc : ℕ → Pc) : Type 0 where
  pub owners : (s : ℕ) → census (holds s) n pc ≡ taken (slots s).in_use
  pub right : (j : ℕ) → j < n → Right slots j (pc j)
  pub marks :
      (s : ℕ)
      → (slots s).in_use ≡ true
      → (slots s).tid ≢ 0
      → ((slots s).tid < n) × Marks s (pc (slots s).tid)
  pub fetches : (i : ℕ) → i < n → Fetches n pc i (pc i)
  pub within : (s : ℕ) → (slots s).in_use ≡ true → s < pthread_max
  pub nobody : pc 0 ≡ unborn

-- What slots a thread does not hold do not matter to it.
module _ (slots slots' : ℕ → ThreadSlot) (j : ℕ) where
  RightOwn-frame :
      (o : Own) (p : Place)
      → ((s : ℕ) → 0 < own_holds s o → slots' s ≡ slots s)
      → RightOwn slots j o p
      → RightOwn slots' j o p
  RightOwn-frame foreign p same r = r
  RightOwn-frame (bound k) p same r =
      subst (λ (s : ThreadSlot). (s.tid ≡ j) × Kept s p) (sym (same k (ground arith))) r
  RightOwn-frame (lost k) p same r = r

  RightPlace-frame :
      (p : Place)
      → ((s : ℕ) → 0 < place_holds s p → slots' s ≡ slots s)
      → RightPlace slots p
      → RightPlace slots' p
  RightPlace-frame (creating f k) same r =
      subst (λ (s : ThreadSlot). Fresh s f 0) (sym (same k (ground arith))) r
  RightPlace-frame routine same r = tt
  RightPlace-frame (failing k) same r = tt
  RightPlace-frame (fetching t) same r = tt
  RightPlace-frame (returned v) same r = tt
  RightPlace-frame (recorded v) same r = tt
  RightPlace-frame (leaving v) same r = tt

  RightEnd-frame :
      (o : Own) (v : ℕ)
      → ((s : ℕ) → 0 < own_holds s o → slots' s ≡ slots s)
      → RightEnd slots j o v
      → RightEnd slots' j o v
  RightEnd-frame foreign v same r = r
  RightEnd-frame (bound k) v same r =
      subst (λ (s : ThreadSlot). (s.tid ≡ j) × (s.retval ≡ v)) (sym (same k (ground arith))) r
  RightEnd-frame (lost k) v same r =
      subst (λ (s : ThreadSlot). (v ≡ 0) × (s.tid ≡ 0)) (sym (same k (ground arith))) r

  pub Right-frame :
      (p : Pc) → ((s : ℕ) → 0 < holds s p → slots' s ≡ slots s) → Right slots j p → Right slots' j p
  Right-frame unborn same r = tt
  Right-frame (entering f k) same r =
      subst (λ (s : ThreadSlot). Fresh s f 0) (sym (same k (ground arith))) r
  Right-frame (tagged f k) same r =
      subst (λ (s : ThreadSlot). Fresh s f j) (sym (same k (ground arith))) r
  Right-frame (active o p) same (r, q) = (
    RightOwn-frame o p (λ s h. same s (omega arith)) r,
    RightPlace-frame p (λ s h. same s (omega arith)) q,
  )
  Right-frame (ended o v) same r = RightEnd-frame o v same r
  Right-frame (reaped o v by) same r = RightEnd-frame o v same r
  Right-frame (gone o) same r = tt
