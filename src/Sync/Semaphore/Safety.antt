-- ===== src/Sync/Semaphore/Safety.antt =====
-- Conservation of the count and the absence of lost wakeups for src/semaphore.c.
use neoos_libneoos.Base.{
  inr, ℕ, zero, ◌+◌, ◌≤◌, ◌<◌, ◌≡◌, ◌≢◌, ◌⊎◌, inl, refl, arith, Bool, ap, Option, List, [], ◌∷◌,
}
use neoos_libneoos.Base.Int.{pos}
use neoos_libneoos.Base.Census.{
  put, census, census-put, census-zero, weight-le-census, census-pos, census-none,
}
use neoos_libneoos.Sync.Semaphore.{
  Event, returned, wait, trywait, sem_post, note, Pc, outside, looking, loaded, asleep, trying,
  posting, Count, Move, System, Step, move, wake_one, wake_none, Reach, start, later,
}

abbrev sleeps : Pc → ℕ
sleeps (asleep timed) = 1
sleeps _ = 0

-- A post whose wake is still to come, and a waiter that is awake and will look again.
abbrev pub pursues : Pc → ℕ
pursues (looking timed) = 1
pursues (loaded timed v) = 1
pursues posting = 1
pursues _ = 0

-- A call of wait or trywait that returned 0 has a unit.
abbrev pub acquires : Event → ℕ
acquires (returned wait (pos zero)) = 1
acquires (returned trywait (pos zero)) = 1
acquires _ = 0

-- A `sem_post` that has returned.
abbrev pub posts : Event → ℕ
posts (returned sem_post rc) = 1
posts _ = 0

-- A `sem_post` that has added its unit and not returned.
abbrev pub adds : Pc → ℕ
adds posting = 1
adds _ = 0

-- The sum of `f` over a log.
unfoldable pub total : (Event → ℕ) → List Event → ℕ
total f [] = 0
total f (e ∷ log) = f e + total f log

-- Every unit was there from the start or posted, and is there still or was handed out; and while a thread
-- sleeps, no more units lie there than threads are under way to them.
pub record Inv (n initial : ℕ) (c : Count) (pc : ℕ → Pc) (log : List Event) : Type 0 where
  pub kept : c.value + total acquires log ≡ initial + total posts log + census adds n pc
  pub watched : (census sleeps n pc ≡ 0) ⊎ (c.value ≤ census pursues n pc)

record Mover (n : ℕ) (pc : ℕ → Pc) (i : ℕ) (p p' : Pc) : Type 0 where
  slept : census sleeps n (put pc i p') + sleeps p ≡ census sleeps n pc + sleeps p'
  pursued : census pursues n (put pc i p') + pursues p ≡ census pursues n pc + pursues p'
  added : census adds n (put pc i p') + adds p ≡ census adds n pc + adds p'
  pursuer : pursues p ≤ census pursues n pc

mover : (n : ℕ) (pc : ℕ → Pc) (i : ℕ) (p' : Pc) → i < n → Mover n pc i (pc i) p'
mover n pc i p' lt = record {
  slept = census-put sleeps n pc i p' lt;
  pursued = census-put pursues n pc i p' lt;
  added = census-put adds n pc i p' lt;
  pursuer = weight-le-census pursues n pc i lt;
}

Move-Inv :
    {n k : ℕ} {c c' : Count} {pc : ℕ → Pc} {log : List Event} (i : ℕ) {p p' : Pc} {e : Option Event}
    → Inv n k c pc log
    → Mover n pc i p p'
    → Move c p c' p' e
    → Inv n k c' (put pc i p') (note e log)
unfolding total
Move-Inv i inv f (Move.call_wait timed) = ground arith
Move-Inv i inv f Move.load = ground arith
Move-Inv i inv f (Move.wait_take a b) = ground arith
Move-Inv i inv f (Move.wait_lose a) = ground arith
Move-Inv i inv f (Move.sleep a b) = ground arith
Move-Inv i inv f (Move.changed a b) = ground arith
Move-Inv i inv f (Move.interrupt a) = ground arith
Move-Inv i inv f Move.spurious = ground arith
Move-Inv i inv f (Move.timeout a) = ground arith
Move-Inv i inv f Move.try_load = ground arith
Move-Inv i inv f (Move.try_take a b) = ground arith
Move-Inv i inv f (Move.try_lose a) = ground arith
Move-Inv i inv f (Move.try_empty a) = ground arith
Move-Inv i inv f (Move.post a) = ground arith

wake_one-Inv :
    {n k : ℕ} {c : Count} {pc : ℕ → Pc} {log : List Event} (i j : ℕ) (timed : Bool)
    → Inv n k c pc log
    → i < n
    → j < n
    → pc i ≡ posting
    → pc j ≡ asleep timed
    → Inv n k c (put (put pc i outside) j (looking timed)) (returned sem_post (pos 0) ∷ log)
unfolding total
wake_one-Inv {n} {c} {pc} i j timed inv lti ltj ei ej =
    let f = mover n pc i outside lti in
    let ej' : put pc i outside j ≡ asleep timed = ground arith in
    let g = mover n (put pc i outside) j (looking timed) ltj in
    record {
      kept = ground (arith, inv.kept, f.added, g.added, ap adds ei, ap adds ej');
      watched = ground (
        arith,
        inv.watched,
        f.pursued,
        g.pursued,
        f.slept,
        g.slept,
        ap pursues ei,
        ap pursues ej',
        ap sleeps ei,
        ap sleeps ej',
        f.pursuer,
      );
    }

wake_none-Inv :
    {n k : ℕ} {c : Count} {pc : ℕ → Pc} {log : List Event} (i : ℕ)
    → Inv n k c pc log
    → i < n
    → pc i ≡ posting
    → ((j : ℕ) (timed : Bool) → j < n → pc j ≢ asleep timed)
    → Inv n k c (put pc i outside) (returned sem_post (pos 0) ∷ log)
unfolding total
wake_none-Inv {n} {c} {pc} i inv lt ei nobody =
    let f = mover n pc i outside lt in
    record {
      kept = omega (arith, inv.kept, f.added, ap adds ei);
      watched = inl (
          omega (
            arith,
            f.slept,
            ap sleeps ei,
            census-none sleeps n pc (λ j l. awake (pc j) (λ timed. nobody j timed l)),
          ));
    }
  where
    awake : (p : Pc) → ((timed : Bool) → p ≢ asleep timed) → sleeps p ≡ 0
    awake (asleep timed) ne = absurd (ne timed refl)
    awake outside ne = refl
    awake (looking timed) ne = refl
    awake (loaded timed v) ne = refl
    awake (trying v) ne = refl
    awake posting ne = refl

Step-Inv :
    {n k : ℕ} {s t : System} → Inv n k s.count s.pc s.log → Step n s t → Inv n k t.count t.pc t.log
Step-Inv {n} {s} inv (move i {p} lt mv) = Move-Inv i inv (mover n s.pc i p lt) mv
Step-Inv inv (wake_one i j {timed} lti ltj ei ej) = wake_one-Inv i j timed inv lti ltj ei ej
Step-Inv inv (wake_none i lt ei nobody) = wake_none-Inv i inv lt ei nobody

pub Reach-Inv : {n k : ℕ} {s : System} → Reach n k s → Inv n k s.count s.pc s.log
unfolding total
Reach-Inv {n} (start small) = record {
  kept = omega (arith, census-zero adds n outside refl);
  watched = inl (census-zero sleeps n outside refl);
}
Reach-Inv (later r st) = Step-Inv (Reach-Inv r) st

-- No unit is lost and none is handed out twice: what lies in the semaphore, and the calls of wait and
-- trywait that returned 0, are together as many as it started with and the posts that returned or that
-- have added their unit and are about to return.
pub units_conserved :
    {n k : ℕ} {s : System}
    → Reach n k s
    → s.count.value + total acquires s.log ≡ k + total posts s.log + census adds n s.pc
units_conserved r = (Reach-Inv r).kept

-- No lost wakeup: while a thread sleeps, each unit in the semaphore is matched by a thread that is about
-- to look at the count again or by a post that has still to wake a sleeper; so if there is a unit, there
-- is such a thread.
pub post_reaches_sleeper :
    {n k : ℕ} {s : System}
    → Reach n k s
    → (j : ℕ) (timed : Bool) → j < n
    → s.pc j ≡ asleep timed
    → (s.count.value ≤ census pursues n s.pc)
      × (0 < s.count.value → (i : ℕ) × (i < n) × (pursues (s.pc i) ≡ 1))
post_reaches_sleeper {n} {s} r j timed lt e =
    let enough = under_way (Reach-Inv r).watched in
    (
      enough,
      λ v.
          let (i, li, h) = census-pos pursues n s.pc (omega (arith, enough)) in
          (i, li, pursuer (s.pc i) h),
    )
  where
    under_way :
        (census sleeps n s.pc ≡ 0) ⊎ (s.count.value ≤ census pursues n s.pc)
        → s.count.value ≤ census pursues n s.pc
    under_way (inl none) = absurd (omega (arith, weight-le-census sleeps n s.pc j lt, ap sleeps e))
    under_way (inr h) = h

    pursuer : (p : Pc) → 0 < pursues p → pursues p ≡ 1
    pursuer p h = ground arith
