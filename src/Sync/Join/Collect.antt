-- ===== src/Sync/Join/Collect.antt =====
-- `pthread_join` of src/pthread.c keeps the invariant of the table, and finds the value.
use neoos_libneoos.Base.{
  sym, subst, ℕ, ◌+◌, ◌<◌, ◌≡◌, ◌≢◌, refl, ◌∙◌, ap, arith, true, false, Option,
}
use neoos_libneoos.Base.Census.{put}
use neoos_libneoos.Sync.Join.{
  ThreadSlot, Own, foreign, bound, lost, Place, fetching, Pc, unborn, active, ended, reaped, gone,
  slot_for_tid, collected,
}
use neoos_libneoos.Sync.Join.Right.{
  own_holds, RightPlace, place_holds, holds, Right, RightOwn, Marks, Fetches, Inv,
}
use neoos_libneoos.Sync.Join.Effect.{put_other, Effect, held-in_use, Effect-Inv}
use neoos_libneoos.Sync.Join.Value.{own_slot, slot_for_tid-reaped}
use neoos_libneoos.Sync.Join.Marks.{carry}
use neoos_libneoos.Sync.Join.Keep.{Unreaped, unfetched, old_Marks, still-Effect}

module _ {n : ℕ} {slots : ℕ → ThreadSlot} {pc : ℕ → Pc} (inv : Inv n slots pc) where
  -- Thread 0 never starts.
  pub started : (j : ℕ) (q : Pc) → pc j ≡ q → (q ≡ unborn → ⊥) → j ≢ 0
  started j q e born z = born (sym e ∙ ap pc z ∙ inv.nobody)

  pub reap-Inv :
      (t : ℕ) (own : Own) (v : ℕ) (by : Option ℕ)
      → t < n
      → pc t ≡ ended own v
      → Inv n slots (put pc t (reaped own v by))
  reap-Inv t own v by lt e = Effect-Inv t lt (started t (ended own v) e (λ q. cc)) inv (
      still-Effect inv t (reaped own v by) (λ s. ap (holds s) (sym e))
        (subst (Right slots t) e (inv.right t lt)) (λ s m. subst (Marks s) e m) tt
        (unfetched inv t (subst Unreaped (sym e) tt)))

  -- A thread goes between its routine and `pthread_join`.
  pub place-Inv :
      (i : ℕ) (o : Own) (p p' : Place)
      → i < n
      → pc i ≡ active o p
      → ((s : ℕ) → place_holds s p' ≡ place_holds s p)
      → (RightOwn slots i o p → RightOwn slots i o p')
      → RightPlace slots p'
      → Fetches n (put pc i (active o p')) i (active o p')
      → Inv n slots (put pc i (active o p'))
  place-Inv i o p p' li e same right place fetches =
      Effect-Inv i li (started i (active o p) e (λ q. cc)) inv (
        still-Effect inv i (active o p')
          (λ s. ap (λ k. own_holds s o + k) (same s) ∙ ap (holds s) (sym e))
          (right (subst (Right slots i) e (inv.right i li)).0, place) (λ s m. subst (Marks s) e m)
          fetches (unfetched inv i (subst Unreaped (sym e) tt)))

  -- What `pthread_join` takes from the table for thread `t`.
  pub collected-reaped :
      (t : ℕ) (own : Own) (v : ℕ) (by : Option ℕ)
      → t < n
      → pc t ≡ reaped own v by
      → (collected t slots).0 ≡ v
  unfolding collected
  collected-reaped t foreign v by lt e =
      rw (slot_for_tid-reaped inv t (started t _ e (λ q. cc)) foreign v by lt e, collected)
        (sym (subst (Right slots t) e (inv.right t lt)))
  collected-reaped t (bound k) v by lt e =
      rw (slot_for_tid-reaped inv t (started t _ e (λ q. cc)) (bound k) v by lt e, collected)
        (subst (Right slots t) e (inv.right t lt)).1
  collected-reaped t (lost k) v by lt e =
      rw (slot_for_tid-reaped inv t (started t _ e (λ q. cc)) (lost k) v by lt e, collected)
        (sym (subst (Right slots t) e (inv.right t lt)).0)

-- The table after `pthread_join` has looked into it.
abbrev cleared : Own → (ℕ → ThreadSlot) → ℕ → ThreadSlot
cleared (bound k) slots = put slots k (record (slots k) { in_use = false })
cleared _ slots = slots

cleared-collected :
    (t : ℕ) (o : Own) (slots : ℕ → ThreadSlot)
    → slot_for_tid t slots ≡ own_slot o
    → cleared o slots ≡ (collected t slots).1
unfolding collected
cleared-collected t foreign slots e = rw (e, collected) refl
cleared-collected t (bound k) slots e = rw (e, collected) refl
cleared-collected t (lost k) slots e = rw (e, collected) refl

module _ {n : ℕ} {slots : ℕ → ThreadSlot} {pc : ℕ → Pc} (inv : Inv n slots pc) (t : ℕ) (v : ℕ)
    (by : Option ℕ) (alone : (i : ℕ) (o : Own) → i < n → pc i ≡ active o (fetching t) → ⊥) where
  take-Effect :
      (own : Own)
      → t < n
      → pc t ≡ reaped own v by
      → Effect n slots pc t (cleared own slots) (gone own)
  take-Effect foreign lt e =
      still-Effect inv t (gone foreign) (λ s. ap (holds s) (sym e)) tt (λ s m. subst (Marks s) e m)
        tt alone
  take-Effect (lost k) lt e =
      still-Effect inv t (gone (lost k)) (λ s. ap (holds s) (sym e)) tt (λ s m. subst (Marks s) e m)
        tt alone
  take-Effect (bound k) lt e =
      let used : (slots k).in_use ≡ true =
        held-in_use t k inv lt (ground (arith, ap (holds k) e)) in
      record {
        keeps = λ s h u. put_other slots k _ s (λ q. ground (arith, ap (holds s) e, q));
        count = λ s. ground (arith, ap (holds s) e, used);
        right = tt;
        marks = λ s u z.
            carry slots t (cleared (bound k) slots) s
              (λ w d q. subst (Marks s) e (old_Marks inv t s w d q)) (ground arith) (ground arith) z
              (λ (m : k ≡ s). absurd (ground (arith, m)));
        fetches = tt;
        alone = alone;
        within = λ s u. ground (arith, inv.within s);
      }

  pub take-Inv :
      (own : Own)
      → t < n
      → pc t ≡ reaped own v by
      → Inv n (collected t slots).1 (put pc t (gone own))
  take-Inv own lt e =
      let nonzero = started inv t (reaped own v by) e (λ q. cc) in
      let look = slot_for_tid-reaped inv t nonzero own v by lt e in
      Effect-Inv t lt nonzero inv (
        subst (λ (w : ℕ → ThreadSlot). Effect n slots pc t w (gone own))
          (cleared-collected t own slots look) (take-Effect own lt e))
