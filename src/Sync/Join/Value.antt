-- ===== src/Sync/Join/Value.antt =====
-- Each step of the threads of src/pthread.c keeps the invariant, and `pthread_join` delivers the value.
use neoos_libneoos.Base.{
  sym, subst, ℕ, ◌<◌, ◌≡◌, ◌≢◌, refl, ◌∙◌, ap, arith, true, Option, none, some,
}
use neoos_libneoos.Sync.Join.{
  ThreadSlot, Own, foreign, bound, lost, Place, Pc, active, reaped, slot_for_tid,
}
use neoos_libneoos.Sync.Join.Scan.{slot_for_tid-some, slot_for_tid-none}
use neoos_libneoos.Sync.Join.Right.{holds, Right, Marks, Inv}
use neoos_libneoos.Sync.Join.Effect.{held-in_use}

-- What `slot_for_tid` finds for the tid of a thread.
abbrev pub own_slot : Own → Option ℕ
own_slot (bound k) = some k
own_slot _ = none

module _ {n : ℕ} {slots : ℕ → ThreadSlot} {pc : ℕ → Pc} (inv : Inv n slots pc) (t : ℕ)
    (nonzero : t ≢ 0) where
  Marks-at : (s : ℕ) → (slots s).in_use ≡ true → (slots s).tid ≡ t → Marks s (pc t)
  Marks-at s used same =
      subst (λ k. Marks s (pc k)) same (inv.marks s used (λ e. nonzero (sym same ∙ e))).1

  find_bound :
      (k : ℕ)
      → ((s : ℕ) → Marks s (pc t) → k ≡ s)
      → (slots k).in_use ≡ true
      → (slots k).tid ≡ t
      → (o : Option ℕ) → slot_for_tid t slots ≡ o
      → o ≡ some k
  find_bound k only used same none e =
      absurd (slot_for_tid-none t slots k e (inv.within k used) used same)
  find_bound k only used same (some s) e =
      let (was, tid, lt) = slot_for_tid-some t slots s e in
      ap some (sym (only s (Marks-at s was tid)))

  find_none : ((s : ℕ) → Marks s (pc t) → ⊥) → (o : Option ℕ) → slot_for_tid t slots ≡ o → o ≡ none
  find_none nobody none e = refl
  find_none nobody (some s) e =
      let (was, tid, lt) = slot_for_tid-some t slots s e in absurd (nobody s (Marks-at s was tid))

  pub slot_for_tid-active :
      (o : Own) (p : Place) → t < n → pc t ≡ active o p → slot_for_tid t slots ≡ own_slot o
  slot_for_tid-active foreign p lt e =
      find_none (λ s m. subst (Marks s) e m) (slot_for_tid t slots) refl
  slot_for_tid-active (bound k) p lt e =
      let own = subst (Right slots t) e (inv.right t lt) in
      let used = held-in_use t k inv lt (ground (arith, ap (holds k) e)) in
      find_bound k (λ s m. subst (Marks s) e m) used own.0.0 (slot_for_tid t slots) refl
  slot_for_tid-active (lost k) p lt e = absurd (subst (Right slots t) e (inv.right t lt)).0

  pub slot_for_tid-reaped :
      (o : Own) (v : ℕ) (by : Option ℕ)
      → t < n
      → pc t ≡ reaped o v by
      → slot_for_tid t slots ≡ own_slot o
  slot_for_tid-reaped foreign v by lt e =
      find_none (λ s m. subst (Marks s) e m) (slot_for_tid t slots) refl
  slot_for_tid-reaped (bound k) v by lt e =
      let own = subst (Right slots t) e (inv.right t lt) in
      let used = held-in_use t k inv lt (ground (arith, ap (holds k) e)) in
      find_bound k (λ s m. subst (Marks s) e m) used own.0 (slot_for_tid t slots) refl
  slot_for_tid-reaped (lost k) v by lt e =
      find_none (λ s m. subst (Marks s) e m) (slot_for_tid t slots) refl
