-- ===== src/Sync/Condvar/Safety.antt =====
-- No thread sleeps through a completed signal or broadcast of src/pthread.c that leaves no sleeper.
use neoos_libneoos.Base.{
  inr, inl, sym, subst, ℕ, ◌%◌, ◌^◌, ◌≤◌, ◌<◌, ◌≡◌, ◌≢◌, refl, arith, Bool, ℕ_discrete,
}
use neoos_libneoos.Base.Int.{pos}
use neoos_libneoos.Base.Census.{put}
use neoos_libneoos.Sync.Condvar.{
  Pc, asleep, woken, Cond, resume, System, IsAsleep, later_of, Step, move, wake_one, wake_none,
  wake_all, Reach, start, later,
}
use neoos_libneoos.Sync.Condvar.Right.{
  Right, Right-bump, Right-served, Right-resume, wake-awake, Right-wake, Moved, Move-Moved,
}

record Inv (n : ℕ) (c : Cond) (pc : ℕ → Pc) : Type 0 where
  seq : c.seq ≡ c.bumps % 2 ^ 32
  served : c.served ≤ c.bumps
  right : (j : ℕ) → j < n → Right c.bumps c.served (c.freed j) (pc j)

put_case :
    (P : Pc → Type 0) (pc : ℕ → Pc) (i : ℕ) (p : Pc) (j : ℕ)
    → (i ≡ j → P p)
    → (i ≢ j → P (pc j))
    → P (put pc i p j)
put_case P pc i p j own other = elim (ℕ_discrete i j) [
  | yes e ↦ let at : put pc i p j ≡ p = ground arith in subst P (sym at) (own e)
  | no ne ↦ let at : put pc i p j ≡ pc j = ground arith in subst P (sym at) (other ne)
]

move-Inv :
    {n : ℕ} {c c' : Cond} {pc : ℕ → Pc} (i : ℕ) {p : Pc}
    → i < n
    → Inv n c pc
    → Moved c c' i p
    → Inv n c' (put pc i p)
move-Inv {n} {c} {c'} {pc} i {p} li inv m = record {
  seq = m.seq;
  served = elim m.bumps [
    | inl e ↦ omega (arith, e, m.served, inv.served)
    | inr e ↦ omega (arith, e, m.served, inv.served)
  ];
  right = λ j lj.
      put_case (Right c'.bumps c'.served (c'.freed j)) pc i p j
        (λ e. subst (λ k. Right c'.bumps c'.served (c'.freed k) p) e m.right)
        (λ ne.
          subst (λ f. Right c'.bumps c'.served f (pc j)) (sym (m.others j ne))
            (keep (c.freed j) (pc j) (inv.right j lj)));
}
  where
    keep : (f : ℕ) (q : Pc) → Right c.bumps c.served f q → Right c'.bumps c'.served f q
    keep f q r =
        subst (λ k. Right c'.bumps k f q) (sym m.served)
          (elim m.bumps [
            | inl e ↦ subst (λ k. Right k c.served f q) (sym e) r
            | inr e ↦ subst (λ k. Right k c.served f q) (sym e) (Right-bump c.bumps c.served f q r)
          ])

later_of-le : (a b c : ℕ) → a ≤ c → b ≤ c → later_of a b ≤ c
later_of-le a b c h k = ground arith

-- A wake that leaves no sleeper.
calm-Inv :
    {n : ℕ} {c : Cond} {pc : ℕ → Pc} (b : ℕ)
    → b ≤ c.bumps
    → Inv n c pc
    → ((j : ℕ) → j < n → IsAsleep (pc j) → ⊥)
    → Inv n (record c { served = later_of c.served b }) pc
calm-Inv {n} {c} {pc} b le inv calm = record {
  seq = inv.seq;
  served = later_of-le c.served b c.bumps inv.served le;
  right = λ j lj. Right-served c.bumps c.served _ (c.freed j) (pc j) (calm j lj) (inv.right j lj);
}

put-Inv :
    {n : ℕ} {c : Cond} {pc : ℕ → Pc} (i : ℕ) (p : Pc)
    → Inv n c pc
    → Right c.bumps c.served (c.freed i) p
    → Inv n c (put pc i p)
put-Inv {n} {c} {pc} i p inv r = record {
  seq = inv.seq;
  served = inv.served;
  right = λ j lj.
      put_case (Right c.bumps c.served (c.freed j)) pc i p j
        (λ e. subst (λ k. Right c.bumps c.served (c.freed k) p) e r) (λ ne. inv.right j lj);
}

Step-Inv : {n : ℕ} {s t : System} → Inv n s.cond s.pc → Step n s t → Inv n t.cond t.pc
Step-Inv inv (move i li mv) = move-Inv i li inv (Move-Moved inv.seq inv.served (inv.right i li) mv)
Step-Inv {s = s} inv (wake_one i j {held = held} li lj ei ej) =
    put-Inv j (woken (pos 0))
      (put-Inv i (resume held) inv (Right-resume s.cond.bumps s.cond.served (s.cond.freed i) held))
      tt
Step-Inv {n} {s} inv (wake_none i {held = held} {b = b} li ei calm) =
    put-Inv i (resume held)
      (calm-Inv b (subst (Right s.cond.bumps s.cond.served (s.cond.freed i)) ei (inv.right i li))
        inv calm)
      (Right-resume s.cond.bumps (later_of s.cond.served b) (s.cond.freed i) held)
Step-Inv {n} {s} inv (wake_all i {held = held} {b = b} li few ei) =
    put-Inv i (resume held)
      (calm-Inv b (subst (Right s.cond.bumps s.cond.served (s.cond.freed i)) ei (inv.right i li))
        (record {
          seq = inv.seq;
          served = inv.served;
          right = λ j lj.
              Right-wake s.cond.bumps s.cond.served (s.cond.freed j) (s.pc j) (inv.right j lj);
        })
        (λ j lj. wake-awake (s.pc j)))
      (Right-resume s.cond.bumps (later_of s.cond.served b) (s.cond.freed i) held)

Reach-Inv : {n : ℕ} {s : System} → Reach n s → Inv n s.cond s.pc
Reach-Inv start = record { seq = refl; served = omega arith; right = λ j lj. tt }
Reach-Inv (later r st) = Step-Inv (Reach-Inv r) st

-- However the calls of any number of threads interleave, with fewer than 2^32 signals and broadcasts: a
-- thread that sleeps in a wait read `seq` before it gave the mutex up, and after the addition of each
-- broadcast that has ended, and of each signal that has ended without finding a sleeper. So while it
-- sleeps, no broadcast whose addition followed its unlock has ended, and no such signal has ended without
-- waking a thread: none is lost between the unlock and the sleep.
pub no_lost_broadcast :
    {n : ℕ} {s : System}
    → Reach n s
    → s.cond.bumps < 2 ^ 32
    → (j : ℕ) (timed : Bool) (v g : ℕ) → j < n
    → s.pc j ≡ asleep timed v g
    → (s.cond.served ≤ g) × (g ≤ s.cond.freed j)
no_lost_broadcast {n} {s} r few j timed v g lj e =
    let (served, freed) =
      subst (Right s.cond.bumps s.cond.served (s.cond.freed j)) e ((Reach-Inv r).right j lj) in
    (served few, freed)
