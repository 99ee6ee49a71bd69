-- ===== src/Sync/Condvar/Right.antt =====
-- What holds of a single thread on a condition variable of src/pthread.c, and what its moves change.
use neoos_libneoos.Base.{
  inr, inl, ◌⊎◌, sym, subst, ℕ, ◌+◌, ◌%◌, ◌^◌, ◌≤◌, ◌<◌, ◌≡◌, ◌≢◌, refl, arith, Bool, true, false,
  Option, some,
}
use neoos_libneoos.Base.Census.{put}
use neoos_libneoos.Sync.Condvar.{
  Pc, outside, holding, loaded, released, asleep, woken, returned, signalling, Cond, resume, free,
  bump, Move, wake, IsAsleep,
}

-- What is right of a thread, with `bumps`, `served`, and its entry of `freed`.
abbrev pub Right : ℕ → ℕ → ℕ → Pc → Type 0
Right bumps served freed (loaded timed v g) = (v ≡ g % 2 ^ 32) × (g ≤ bumps)
Right bumps served freed (released timed v g) = (v ≡ g % 2 ^ 32) × (g ≤ freed) × (g ≤ bumps)
Right bumps served freed (asleep timed v g) = (bumps < 2 ^ 32 → served ≤ g) × (g ≤ freed)
Right bumps served freed (signalling held all b) = b ≤ bumps
Right bumps served freed _ = Unit

-- One more addition changes nothing for the others.
pub Right-bump :
    (bumps served freed : ℕ) (p : Pc)
    → Right bumps served freed p
    → Right (bumps + 1) served freed p
Right-bump bumps served freed outside r = tt
Right-bump bumps served freed holding r = tt
Right-bump bumps served freed (loaded timed v g) (e, le) = (e, omega (arith, le))
Right-bump bumps served freed (released timed v g) (e, h, le) = (e, h, omega (arith, le))
Right-bump bumps served freed (asleep timed v g) (r, h) = (λ few. r (omega (arith, few)), h)
Right-bump bumps served freed (woken rc) r = tt
Right-bump bumps served freed (returned x) r = tt
Right-bump bumps served freed (signalling held all b) r = omega (arith, r)

-- A thread that does not sleep does not depend on `served`.
pub Right-served :
    (bumps served served' freed : ℕ) (p : Pc)
    → (IsAsleep p → ⊥)
    → Right bumps served freed p
    → Right bumps served' freed p
Right-served bumps served served' freed outside no_sleep r = tt
Right-served bumps served served' freed holding no_sleep r = tt
Right-served bumps served served' freed (loaded timed v g) no_sleep r = r
Right-served bumps served served' freed (released timed v g) no_sleep r = r
Right-served bumps served served' freed (asleep timed v g) no_sleep r = absurd (no_sleep tt)
Right-served bumps served served' freed (woken rc) no_sleep r = tt
Right-served bumps served served' freed (returned x) no_sleep r = tt
Right-served bumps served served' freed (signalling held all b) no_sleep r = r

pub Right-resume : (bumps served freed : ℕ) (held : Bool) → Right bumps served freed (resume held)
Right-resume bumps served freed true = tt
Right-resume bumps served freed false = tt

-- What a wake of all leaves of a thread.
pub wake-awake : (p : Pc) → IsAsleep (wake p) → ⊥
wake-awake (asleep timed v g) h = h
wake-awake outside h = h
wake-awake holding h = h
wake-awake (loaded timed v g) h = h
wake-awake (released timed v g) h = h
wake-awake (woken rc) h = h
wake-awake (returned r) h = h
wake-awake (signalling held all b) h = h

pub Right-wake :
    (bumps served freed : ℕ) (p : Pc)
    → Right bumps served freed p
    → Right bumps served freed (wake p)
Right-wake bumps served freed (asleep timed v g) r = tt
Right-wake bumps served freed outside r = r
Right-wake bumps served freed holding r = r
Right-wake bumps served freed (loaded timed v g) r = r
Right-wake bumps served freed (released timed v g) r = r
Right-wake bumps served freed (woken rc) r = r
Right-wake bumps served freed (returned x) r = r
Right-wake bumps served freed (signalling held all b) r = r

-- What a move by thread `i` does: nothing that the others see, or one addition.
pub record Moved (c c' : Cond) (i : ℕ) (p : Pc) : Type 0 where
  pub seq : c'.seq ≡ c'.bumps % 2 ^ 32
  pub served : c'.served ≡ c.served
  pub bumps : (c'.bumps ≡ c.bumps) ⊎ (c'.bumps ≡ c.bumps + 1)
  pub others : (j : ℕ) → i ≢ j → c'.freed j ≡ c.freed j
  pub right : Right c'.bumps c'.served (c'.freed i) p

-- A move that leaves the fields that matter alone.
quiet :
    {c : Cond} {i : ℕ} {p : Pc} (owner : Option ℕ)
    → c.seq ≡ c.bumps % 2 ^ 32
    → Right c.bumps c.served (c.freed i) p
    → Moved c (record c { owner = owner }) i p
quiet owner e r = record {
  seq = e;
  served = refl;
  bumps = inl refl;
  others = λ j ne. refl;
  right = r;
}

put-same : (f : ℕ → ℕ) (i x : ℕ) → put f i x i ≡ x
put-same f i x = ground arith

put-other : (f : ℕ → ℕ) (i x j : ℕ) → i ≢ j → put f i x j ≡ f j
put-other f i x j ne = ground arith

freeing :
    {c : Cond} {i : ℕ} {p : Pc}
    → c.seq ≡ c.bumps % 2 ^ 32
    → Right c.bumps c.served c.bumps p
    → Moved c (free i c) i p
freeing {c} {i} {p} e r = record {
  seq = e;
  served = refl;
  bumps = inl refl;
  others = λ j ne. put-other c.freed i c.bumps j ne;
  right = subst (λ f. Right c.bumps c.served f p) (sym (put-same c.freed i c.bumps)) r;
}

adding :
    {c : Cond} {i : ℕ} (held all : Bool)
    → c.seq ≡ c.bumps % 2 ^ 32
    → Moved c (bump c) i (signalling held all (c.bumps + 1))
adding held all e = record {
  seq = omega (arith, e);
  served = refl;
  bumps = inr refl;
  others = λ j ne. refl;
  right = omega arith;
}

pub Move-Moved :
    {c : Cond} {i : ℕ} {c' : Cond} {p p' : Pc}
    → c.seq ≡ c.bumps % 2 ^ 32
    → c.served ≤ c.bumps
    → Right c.bumps c.served (c.freed i) p
    → Move c i p c' p'
    → Moved c c' i p'
Move-Moved {i = i} e le r (Move.lock h) = quiet (some i) e tt
Move-Moved e le r Move.unlock = freeing e tt
Move-Moved {c = c} e le r (Move.load timed) = quiet c.owner e (e, omega arith)
Move-Moved e le r Move.release = let (same, past) = r in freeing e (same, past, past)
Move-Moved {c = c} e le r (Move.sleep {g = g} h) =
    let (same, before, past) = r in
    quiet c.owner e (λ small. omega (arith, same, past, e, h, le, small), before)
Move-Moved {c = c} e le r (Move.changed h) = quiet c.owner e tt
Move-Moved {c = c} e le r Move.interrupt = quiet c.owner e tt
Move-Moved {c = c} e le r Move.interrupt_sleep = quiet c.owner e tt
Move-Moved {c = c} e le r Move.spurious = quiet c.owner e tt
Move-Moved {c = c} e le r Move.timeout = quiet c.owner e tt
Move-Moved {i = i} e le r (Move.relock h) = quiet (some i) e tt
Move-Moved {c = c} e le r Move.back = quiet c.owner e tt
Move-Moved e le r (Move.signal_outside all) = adding false all e
Move-Moved e le r (Move.signal_holding all) = adding true all e
