-- ===== src/Sync/Mutex/Safety.antt =====
-- Mutual exclusion and the absence of lost wakeups for the mutex of src/pthread.c.
use neoos_libneoos.Base.{
  ℕ, ◌+◌, ◌≤◌, ◌<◌, ◌≡◌, ◌≢◌, ◌⊎◌, inl, inr, refl, arith, ◌==◌, if◌then◌else◌, ap,
}
use neoos_libneoos.Base.Census.{
  put, census, census-put, census-zero, weight-le-census, census-pos, census-none,
}
use neoos_libneoos.Sync.Mutex.{
  Pc, outside, swapping, asleep, holding, clearing, waking, Move, System, Step, move, wake_one,
  wake_none, Reach, start, later,
}

abbrev pub holds : Pc → ℕ
holds holding = 1
holds clearing = 1
holds _ = 0

abbrev sleeps : Pc → ℕ
sleeps asleep = 1
sleeps _ = 0

-- Threads that are awake and will look at the mutex again, or wake another.
abbrev rescues : Pc → ℕ
rescues swapping = 1
rescues clearing = 1
rescues waking = 1
rescues _ = 0

-- The state is 0 exactly while no thread holds the mutex, at most one does, and nobody sleeps on a
-- mutex that is not marked with 2 unless a thread is under way that will see to it.
pub record Inv (n w : ℕ) (pc : ℕ → Pc) : Type 0 where
  pub bound : w ≤ 2
  pub owners : census holds n pc ≡ (if w == 0 then 0 else 1)
  pub watched : (census sleeps n pc ≡ 0) ⊎ ((w ≡ 2) ⊎ (0 < census rescues n pc))

-- How the three censuses change when thread `i` goes from `p` to `p'`.
record Mover (n : ℕ) (pc : ℕ → Pc) (i : ℕ) (p p' : Pc) : Type 0 where
  held : census holds n (put pc i p') + holds p ≡ census holds n pc + holds p'
  slept : census sleeps n (put pc i p') + sleeps p ≡ census sleeps n pc + sleeps p'
  rescued : census rescues n (put pc i p') + rescues p ≡ census rescues n pc + rescues p'
  owner : holds p ≤ census holds n pc
  rescuer : rescues p ≤ census rescues n pc

mover : (n : ℕ) (pc : ℕ → Pc) (i : ℕ) (p' : Pc) → i < n → Mover n pc i (pc i) p'
mover n pc i p' lt = record {
  held = census-put holds n pc i p' lt;
  slept = census-put sleeps n pc i p' lt;
  rescued = census-put rescues n pc i p' lt;
  owner = weight-le-census holds n pc i lt;
  rescuer = weight-le-census rescues n pc i lt;
}

Move-Inv :
    {n w w' : ℕ} {pc : ℕ → Pc} (i : ℕ) {p p' : Pc}
    → Inv n w pc
    → Mover n pc i p p'
    → Move w p w' p'
    → Inv n w' (put pc i p')
Move-Inv i inv f (Move.lock_free e) = ground arith
Move-Inv i inv f (Move.lock_contended e) = ground arith
Move-Inv i inv f (Move.lock_taken a b) = ground arith
Move-Inv i inv f (Move.try_free e) = ground arith
Move-Inv i inv f (Move.try_busy e) = ground arith
Move-Inv i inv f (Move.swap_free e) = ground arith
Move-Inv i inv f (Move.swap_taken e) = ground arith
Move-Inv i inv f (Move.sleep e) = ground arith
Move-Inv i inv f (Move.changed e) = ground arith
Move-Inv i inv f Move.interrupt = ground arith
Move-Inv i inv f Move.spurious = ground arith
Move-Inv i inv f (Move.unlock_only e) = ground arith
Move-Inv i inv f (Move.unlock_shared e) = ground arith
Move-Inv i inv f Move.clear = ground arith

-- A thread that is woken takes the waker's place among the rescuers.
wake_one-Inv :
    {n w : ℕ} {pc : ℕ → Pc} (i j : ℕ)
    → Inv n w pc
    → i < n
    → j < n
    → pc i ≡ waking
    → pc j ≡ asleep
    → Inv n w (put (put pc i outside) j swapping)
wake_one-Inv {n} {w} {pc} i j inv lti ltj ei ej =
    let f = mover n pc i outside lti in
    let ej' : put pc i outside j ≡ asleep = ground arith in
    let g = mover n (put pc i outside) j swapping ltj in
    record {
      bound = inv.bound;
      owners = omega (arith, inv.owners, f.held, g.held, ap holds ei, ap holds ej');
      watched =
          inr (inr (omega (arith, f.rescued, g.rescued, ap rescues ei, ap rescues ej', f.rescuer)));
    }

wake_none-Inv :
    {n w : ℕ} {pc : ℕ → Pc} (i : ℕ)
    → Inv n w pc
    → i < n
    → pc i ≡ waking
    → ((j : ℕ) → j < n → pc j ≢ asleep)
    → Inv n w (put pc i outside)
wake_none-Inv {n} {w} {pc} i inv lt ei nobody =
    let f = mover n pc i outside lt in
    record {
      bound = inv.bound;
      owners = omega (arith, inv.owners, f.held, ap holds ei);
      watched = inl (
          omega (
            arith,
            f.slept,
            ap sleeps ei,
            census-none sleeps n pc (λ j l. awake (pc j) (nobody j l)),
          ));
    }
  where
    awake : (p : Pc) → p ≢ asleep → sleeps p ≡ 0
    awake p ne = ground arith

Step-Inv : {n : ℕ} {s t : System} → Inv n s.word s.pc → Step n s t → Inv n t.word t.pc
Step-Inv {n} {s} inv (move i {p} lt mv) = Move-Inv i inv (mover n s.pc i p lt) mv
Step-Inv inv (wake_one i j lti ltj ei ej) = wake_one-Inv i j inv lti ltj ei ej
Step-Inv inv (wake_none i lt ei nobody) = wake_none-Inv i inv lt ei nobody

-- The invariant holds in every state that any number of threads can reach.
pub Reach-Inv : {n : ℕ} {s : System} → Reach n s → Inv n s.word s.pc
Reach-Inv {n} start = record {
  bound = omega arith;
  owners = census-zero holds n outside refl;
  watched = inl (census-zero sleeps n outside refl);
}
Reach-Inv (later r st) = Step-Inv (Reach-Inv r) st

-- Two different threads never hold the mutex together, from the end of lock to the store in unlock;
-- and while one holds it the state is not 0, so that no other compare-and-exchange can win.
pub mutual_exclusion :
    {n : ℕ} {s : System}
    → Reach n s
    → (i j : ℕ) → i < n
    → j < n
    → i ≢ j
    → holds (s.pc i) ≡ 1
    → (holds (s.pc j) ≡ 0) × (s.word ≢ 0)
mutual_exclusion {n} {s} r i j lti ltj ne hi =
    let inv = Reach-Inv r in
    let f = mover n s.pc i outside lti in
    let other : put s.pc i outside j ≡ s.pc j = ground arith in
    let b : holds (put s.pc i outside j) ≤ census holds n (put s.pc i outside) =
      weight-le-census holds n (put s.pc i outside) j ltj in
    (ground (arith, inv.owners, f.held, b, ap holds other), ground (arith, inv.owners, f.owner))

-- A thread at `p` will wake a sleeper, or mark the mutex and so make its owner wake one: it holds the
-- mutex and the state is 2, it has released it in part, or it is about to exchange or to wake.
abbrev pub Rescuer : ℕ → Pc → Type 0
Rescuer w p = ((holds p ≡ 1) × (w ≡ 2)) ⊎ ((p ≡ clearing) ⊎ ((p ≡ swapping) ⊎ (p ≡ waking)))

-- No lost wakeup: in every state that threads can reach, while one sleeps there is another that holds
-- the mutex with the state 2 (so that its unlock will wake), or that is inside unlock, or that is about
-- to exchange the state with 2; so the threads never all sleep on a free mutex.
pub no_lost_wakeup :
    {n : ℕ} {s : System}
    → Reach n s
    → (j : ℕ) → j < n
    → s.pc j ≡ asleep
    → (i : ℕ) × (i < n) × Rescuer s.word (s.pc i)
no_lost_wakeup {n} {s} r j lt e = found inv.watched
  where
    inv : Inv n s.word s.pc
    inv = Reach-Inv r

    under_way : (p : Pc) → 0 < rescues p → Rescuer s.word p
    under_way p h = ground arith

    holder : s.word ≡ 2 → (p : Pc) → 0 < holds p → Rescuer s.word p
    holder marked p h = ground arith

    found :
        (census sleeps n s.pc ≡ 0) ⊎ ((s.word ≡ 2) ⊎ (0 < census rescues n s.pc))
        → (i : ℕ) × (i < n) × Rescuer s.word (s.pc i)
    found (inl none) = absurd (omega (arith, weight-le-census sleeps n s.pc j lt, ap sleeps e))
    found (inr (inl marked)) =
        let one : 0 < census holds n s.pc = ground (arith, inv.owners) in
        let (i, li, h) = census-pos holds n s.pc one in (i, li, holder marked (s.pc i) h)
    found (inr (inr some_rescuer)) =
        let (i, li, h) = census-pos rescues n s.pc some_rescuer in (i, li, under_way (s.pc i) h)
