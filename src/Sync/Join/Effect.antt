-- ===== src/Sync/Join/Effect.antt =====
-- What one step of a thread must do for the invariant of src/pthread.c to stay.
use neoos_libneoos.Base.{
  sym, subst, ℕ, ◌+◌, ◌≤◌, ◌<◌, ◌≡◌, ◌≢◌, refl, ◌∙◌, ap, arith, Bool, true, false, ℕ_discrete, ◌⊎◌,
  inl, inr,
}
use neoos_libneoos.Base.Census.{put, census-put, weight-le-census}
use neoos_libneoos.Sync.Join.{
  ThreadSlot, Own, routine, creating, failing, fetching, returned, recorded, leaving, Pc, unborn,
  entering, tagged, active, ended, reaped, gone, pthread_max,
}
use neoos_libneoos.Sync.Join.Right.{holds, taken, Right, Marks, Fetches, Inv, Right-frame}

pub record Effect (n : ℕ) (slots : ℕ → ThreadSlot) (pc : ℕ → Pc) (j : ℕ) (slots' : ℕ → ThreadSlot)
    (p : Pc) : Type 0 where
  pub keeps : (s : ℕ) → holds s (pc j) ≡ 0 → (slots s).in_use ≡ true → slots' s ≡ slots s
  pub count :
      (s : ℕ) → holds s p + taken (slots s).in_use ≡ holds s (pc j) + taken (slots' s).in_use
  pub right : Right slots' j p
  pub marks :
      (s : ℕ)
      → (slots' s).in_use ≡ true
      → (slots' s).tid ≢ 0
      → ((slots' s).tid ≡ j × Marks s p)
        ⊎ ((slots' s).tid ≢ j × ((slots s).in_use ≡ true × (slots' s).tid ≡ (slots s).tid))
  pub fetches : Fetches n (put pc j p) j p
  pub alone : (i : ℕ) (o : Own) → i < n → pc i ≡ active o (fetching j) → ⊥
  pub within : (s : ℕ) → (slots' s).in_use ≡ true → s < pthread_max

taken-le : (b : Bool) → taken b ≤ 1
taken-le true = omega arith
taken-le false = omega arith

taken-true : (b : Bool) → 0 < taken b → b ≡ true
taken-true true h = refl
taken-true false h = absurd (omega arith)

-- Two different threads do not hold one slot.
pub apart :
    {n : ℕ} {slots : ℕ → ThreadSlot} {pc : ℕ → Pc} (i j s : ℕ)
    → Inv n slots pc
    → i < n
    → j < n
    → i ≢ j
    → 0 < holds s (pc i)
    → holds s (pc j) ≡ 0
apart {n} {slots} {pc} i j s inv li lj ne h =
    let other : put pc i unborn j ≡ pc j = ground arith in
    omega (
      arith,
      inv.owners s,
      taken-le (slots s).in_use,
      census-put (holds s) n pc i unborn li,
      weight-le-census (holds s) n (put pc i unborn) j lj,
      ap (holds s) other,
    )

pub held-in_use :
    {n : ℕ} {slots : ℕ → ThreadSlot} {pc : ℕ → Pc} (i s : ℕ)
    → Inv n slots pc
    → i < n
    → 0 < holds s (pc i)
    → (slots s).in_use ≡ true
held-in_use {n} {slots} {pc} i s inv li h =
    taken-true (slots s).in_use (omega (arith, inv.owners s, weight-le-census (holds s) n pc i li))

pub put_at : {A : Type 0} (pc : ℕ → A) (j : ℕ) (p : A) (i : ℕ) → i ≡ j → put pc j p i ≡ p
put_at pc j p i e = ground arith

pub put_other : {A : Type 0} (pc : ℕ → A) (j : ℕ) (p : A) (i : ℕ) → i ≢ j → put pc j p i ≡ pc i
put_other pc j p i ne = ground arith

-- A thread other than `j` still finds reaped whom it has reaped.
Fetches-put :
    (n : ℕ) (pc : ℕ → Pc) (j i : ℕ) (p q : Pc)
    → ((o : Own) → q ≡ active o (fetching j) → ⊥)
    → Fetches n pc i q
    → Fetches n (put pc j p) i q
Fetches-put n pc j i p (active o (fetching t)) unfetched (lt, (own, v, e)) = elim (ℕ_discrete t j) [
  | yes same ↦ absurd (unfetched o (ap (λ k. active o (fetching k)) same))
  | no ne ↦ (lt, (own, v, put_other pc j p t ne ∙ e))
]
Fetches-put n pc j i p (active o routine) unfetched f = tt
Fetches-put n pc j i p (active o (creating g k)) unfetched f = tt
Fetches-put n pc j i p (active o (failing k)) unfetched f = tt
Fetches-put n pc j i p (active o (returned v)) unfetched f = tt
Fetches-put n pc j i p (active o (recorded v)) unfetched f = tt
Fetches-put n pc j i p (active o (leaving v)) unfetched f = tt
Fetches-put n pc j i p unborn unfetched f = tt
Fetches-put n pc j i p (entering g k) unfetched f = tt
Fetches-put n pc j i p (tagged g k) unfetched f = tt
Fetches-put n pc j i p (ended o v) unfetched f = tt
Fetches-put n pc j i p (reaped o v by) unfetched f = tt
Fetches-put n pc j i p (gone o) unfetched f = tt

pub Effect-Inv :
    {n : ℕ} {slots slots' : ℕ → ThreadSlot} {pc : ℕ → Pc} (j : ℕ) {p : Pc}
    → j < n
    → j ≢ 0
    → Inv n slots pc
    → Effect n slots pc j slots' p
    → Inv n slots' (put pc j p)
Effect-Inv {n} {slots} {slots'} {pc} j {p} lj nonzero inv eff = record {
  owners = λ s. omega (arith, census-put (holds s) n pc j p lj, inv.owners s, eff.count s);
  right = λ i li. elim (ℕ_discrete i j) [
    | yes e ↦
        subst (Right slots' i) (sym (put_at pc j p i e))
          (subst (λ k. Right slots' k p) (sym e) eff.right)
    | no ne ↦ subst (Right slots' i) (sym (put_other pc j p i ne)) (
        Right-frame slots slots' i (pc i)
          (λ s h. eff.keeps s (apart i j s inv li lj ne h) (held-in_use i s inv li h))
          (inv.right i li))
  ];
  marks = λ s used tid. elim (eff.marks s used tid) [
    | inl (same, m) ↦
        (subst (λ k. k < n) (sym same) lj, subst (Marks s) (sym (put_at pc j p _ same)) m)
    | inr (ne, (was, same)) ↦
        let old = inv.marks s was (λ e. tid (same ∙ e)) in
        (
          subst (λ k. k < n) (sym same) old.0,
          subst (Marks s) (ap pc (sym same) ∙ sym (put_other pc j p _ ne)) old.1,
        )
  ];
  fetches = λ i li. elim (ℕ_discrete i j) [
    | yes e ↦
        subst (λ k. Fetches n (put pc j p) k (put pc j p k)) (sym e)
          (subst (Fetches n (put pc j p) j) (sym (put_at pc j p j refl)) eff.fetches)
    | no ne ↦
        subst (Fetches n (put pc j p) i) (sym (put_other pc j p i ne))
          (Fetches-put n pc j i p (pc i) (λ o e. eff.alone i o li e) (inv.fetches i li))
  ];
  within = eff.within;
  nobody = put_other pc j p 0 (λ e. nonzero (sym e)) ∙ inv.nobody;
}
