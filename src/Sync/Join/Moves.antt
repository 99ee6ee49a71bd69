-- ===== src/Sync/Join/Moves.antt =====
-- What the accesses of src/pthread.c do to the invariant of its table.
use neoos_libneoos.Base.{sym, subst, ℕ, ◌+◌, ◌<◌, ◌≡◌, ◌≢◌, refl, ap, arith, true, false}
use neoos_libneoos.Base.Census.{put}
use neoos_libneoos.Sync.Join.{
  ThreadSlot, Own, foreign, bound, lost, Place, routine, creating, failing, leaving, Pc, active,
  pthread_max, Move, fresh_slot, slot_for_tid, exit_slots,
}
use neoos_libneoos.Sync.Join.Scan.{unused_slot-free}
use neoos_libneoos.Sync.Join.Right.{
  holds, own_holds, taken, Kept, Silent, Right, RightEnd, RightOwn, Fresh,
}
use neoos_libneoos.Sync.Join.Value.{own_slot}

-- What the thread's own slot is, for a thread that may call `pthread_exit`.
abbrev pub Found : (ℕ → ThreadSlot) → ℕ → Pc → Type 0
Found slots j (active o p) = slot_for_tid j slots ≡ own_slot o
Found slots j _ = Unit

put_same : {A : Type 0} (pc : ℕ → A) (j : ℕ) (p : A) → put pc j p j ≡ p
put_same pc j p = ground arith

put_other : {A : Type 0} (pc : ℕ → A) (j : ℕ) (p : A) (i : ℕ) → j ≢ i → put pc j p i ≡ pc i
put_other pc j p i ne = ground arith

-- What `pthread_exit` writes, where it finds the slot of its thread.
abbrev pub exited : Own → ℕ → (ℕ → ThreadSlot) → ℕ → ThreadSlot
exited (bound k) v slots = put slots k (record (slots k) { retval = v; finished = true })
exited _ v slots = slots

pub exit_slots-found :
    (slots : ℕ → ThreadSlot) (j v : ℕ) (o : Own)
    → slot_for_tid j slots ≡ own_slot o
    → exited o v slots ≡ exit_slots j v slots
unfolding exit_slots
exit_slots-found slots j v foreign e = rw (e, exit_slots) refl
exit_slots-found slots j v (bound k) e = rw (e, exit_slots) refl
exit_slots-found slots j v (lost k) e = rw (e, exit_slots) refl

-- A thread goes from one place to another that asks for no more.
pub RightOwn-calm :
    (slots : ℕ → ThreadSlot) (j : ℕ) (o : Own) (p p' : Place)
    → ((s : ThreadSlot) → Kept s p → Kept s p')
    → (Silent p → Silent p')
    → RightOwn slots j o p
    → RightOwn slots j o p'
RightOwn-calm slots j foreign p p' kept silent r = silent r
RightOwn-calm slots j (bound k) p p' kept silent (same, r) = (same, kept (slots k) r)
RightOwn-calm slots j (lost k) p p' kept silent r = r

RightOwn-claim :
    (slots : ℕ → ThreadSlot) (j f k : ℕ) (o : Own)
    → (slots k).in_use ≡ false
    → ((s : ℕ) → 0 < own_holds s o → (slots s).in_use ≡ true)
    → RightOwn slots j o routine
    → RightOwn (put slots k (fresh_slot f)) j o (creating f k)
RightOwn-claim slots j f k foreign unused used r = tt
RightOwn-claim slots j f k (bound k') unused used r = ground (arith, used k')
RightOwn-claim slots j f k (lost k') unused used r = r

pub RightOwn-give_back :
    (slots : ℕ → ThreadSlot) (j k : ℕ) (o : Own)
    → RightOwn slots j o (failing k)
    → RightOwn (put slots k (record (slots k) { in_use = false })) j o routine
RightOwn-give_back slots j k foreign r = tt
RightOwn-give_back slots j k (bound k') r = ground (arith, r)
RightOwn-give_back slots j k (lost k') r = r

RightOwn-end :
    (slots : ℕ → ThreadSlot) (j v : ℕ) (o : Own)
    → RightOwn slots j o (leaving v)
    → RightEnd slots j o v
RightOwn-end slots j v foreign r = r
RightOwn-end slots j v (bound k) r = r
RightOwn-end slots j v (lost k) r = absurd r

module _ {slots : ℕ → ThreadSlot} {j : ℕ} where
  pub Move-keeps :
      {slots' : ℕ → ThreadSlot} {p p' : Pc}
      → Found slots j p
      → Move slots j p slots' p'
      → (s : ℕ) → holds s p ≡ 0
      → (slots s).in_use ≡ true
      → slots' s ≡ slots s
  Move-keeps f (Move.claim g {k} e) s h u =
      let free = (unused_slot-free slots k e).0 in
      put_other slots k (fresh_slot g) s (λ q. ground (arith, ap (λ i. (slots i).in_use) q))
  Move-keeps f (Move.full e) s h u = refl
  Move-keeps f Move.refuse s h u = refl
  Move-keeps f Move.give_back s h u = ground arith
  Move-keeps f Move.no_storage s h u = refl
  Move-keeps f Move.store_tid s h u = ground arith
  Move-keeps f Move.enter s h u = refl
  Move-keeps f (Move.return v) s h u = refl
  Move-keeps f Move.keep s h u = ground arith
  Move-keeps f Move.finish s h u = ground arith
  Move-keeps f (Move.exit {o = foreign} v) s h u =
      subst (λ (t : ℕ → ThreadSlot). t s ≡ slots s) (exit_slots-found slots j v (foreign) f) (refl)
  Move-keeps f (Move.exit {o = bound k} v) s h u =
      subst (λ (t : ℕ → ThreadSlot). t s ≡ slots s) (exit_slots-found slots j v (bound k) f)
        (put_other slots k _ s (λ q. ground arith))
  Move-keeps f (Move.exit {o = lost k} v) s h u =
      subst (λ (t : ℕ → ThreadSlot). t s ≡ slots s) (exit_slots-found slots j v (lost k) f) (refl)
  Move-keeps f Move.quit s h u = refl
  Move-keeps f Move.end s h u = refl

  pub Move-count :
      {slots' : ℕ → ThreadSlot} {p p' : Pc}
      → Found slots j p
      → Move slots j p slots' p'
      → (s : ℕ) → (0 < holds s p → (slots s).in_use ≡ true)
      → holds s p' + taken (slots s).in_use ≡ holds s p + taken (slots' s).in_use
  Move-count f (Move.claim g e) s u = ground (arith, unused_slot-free slots _ e)
  Move-count f (Move.full e) s u = refl
  Move-count f Move.refuse s u = refl
  Move-count f Move.give_back s u = ground arith
  Move-count f Move.no_storage s u = refl
  Move-count f Move.store_tid s u = ground arith
  Move-count f Move.enter s u = ground arith
  Move-count f (Move.return v) s u = refl
  Move-count f Move.keep s u = ground arith
  Move-count f Move.finish s u = ground arith
  Move-count f (Move.exit {o = foreign} v) s u =
      subst
        (λ (t : ℕ → ThreadSlot).
          holds s (active (foreign) (leaving 0)) + taken (slots s).in_use
          ≡ holds s (active (foreign) routine) + taken (t s).in_use)
        (exit_slots-found slots j v (foreign) f) (refl)
  Move-count f (Move.exit {o = bound k} v) s u =
      subst
        (λ (t : ℕ → ThreadSlot).
          holds s (active (bound k) (leaving v)) + taken (slots s).in_use
          ≡ holds s (active (bound k) routine) + taken (t s).in_use)
        (exit_slots-found slots j v (bound k) f) (ground arith)
  Move-count f (Move.exit {o = lost k} v) s u =
      subst
        (λ (t : ℕ → ThreadSlot).
          holds s (active (lost k) (leaving 0)) + taken (slots s).in_use
          ≡ holds s (active (lost k) routine) + taken (t s).in_use)
        (exit_slots-found slots j v (lost k) f) (refl)
  Move-count f Move.quit s u = refl
  Move-count f Move.end s u = ground arith

  pub Move-Right :
      {slots' : ℕ → ThreadSlot} {p p' : Pc}
      → Found slots j p
      → Move slots j p slots' p'
      → ((s : ℕ) → 0 < holds s p → (slots s).in_use ≡ true)
      → Right slots j p
      → Right slots' j p'
  Move-Right f (Move.claim g e) u r = (
    RightOwn-claim slots j g _ _ (unused_slot-free slots _ e).0 (λ s h. u s (omega arith)) r.0,
    subst (λ (s : ThreadSlot). Fresh s g 0) (sym (put_same slots _ (fresh_slot g)))
        (refl, refl, refl),
  )
  Move-Right f (Move.full e) u r = r
  Move-Right f Move.refuse u r =
      (RightOwn-calm slots j _ (creating _ _) (failing _) (λ s k. k) (λ q. q) r.0, tt)
  Move-Right f Move.give_back u r = (RightOwn-give_back slots j _ _ r.0, tt)
  Move-Right f Move.no_storage u r = ground arith
  Move-Right f Move.store_tid u r = ground arith
  Move-Right f Move.enter u r = ground arith
  Move-Right f (Move.return v) u r = ground arith
  Move-Right f Move.keep u r = ground arith
  Move-Right f Move.finish u r = ground arith
  Move-Right f (Move.exit {o = foreign} v) u r =
      subst (λ (t : ℕ → ThreadSlot). Right t j (active (foreign) (leaving 0)))
        (exit_slots-found slots j v (foreign) f) ((refl, tt))
  Move-Right f (Move.exit {o = bound k} v) u r =
      subst (λ (t : ℕ → ThreadSlot). Right t j (active (bound k) (leaving v)))
        (exit_slots-found slots j v (bound k) f) (ground arith)
  Move-Right f (Move.exit {o = lost k} v) u r =
      subst (λ (t : ℕ → ThreadSlot). Right t j (active (lost k) (leaving 0)))
        (exit_slots-found slots j v (lost k) f) (r)
  Move-Right f Move.quit u r =
      (RightOwn-calm slots j _ routine (leaving 0) (λ s k. k) (λ q. refl) r.0, tt)
  Move-Right f Move.end u r = RightOwn-end slots j _ _ r.0

  pub Move-within :
      {slots' : ℕ → ThreadSlot} {p p' : Pc}
      → Found slots j p
      → Move slots j p slots' p'
      → ((s : ℕ) → (slots s).in_use ≡ true → s < pthread_max)
      → ((s : ℕ) → 0 < holds s p → (slots s).in_use ≡ true)
      → (s : ℕ) → (slots' s).in_use ≡ true
      → s < pthread_max
  Move-within f (Move.claim g e) b u s h = ground (arith, unused_slot-free slots _ e, b s)
  Move-within f (Move.full e) b u s h = b s h
  Move-within f Move.refuse b u s h = b s h
  Move-within f Move.give_back b u s h = ground (arith, b s)
  Move-within f Move.no_storage b u s h = b s h
  Move-within f Move.store_tid b u s h = ground (arith, b s)
  Move-within f Move.enter b u s h = b s h
  Move-within f (Move.return v) b u s h = b s h
  Move-within f Move.keep b u s h = ground (arith, b s)
  Move-within f Move.finish b u s h = ground (arith, b s)
  Move-within f (Move.exit {o = foreign} v) b u s h =
      subst (λ (t : ℕ → ThreadSlot). (t s).in_use ≡ true → s < pthread_max)
        (exit_slots-found slots j v (foreign) f) (b s) h
  Move-within f (Move.exit {o = bound k} v) b u s h =
      subst (λ (t : ℕ → ThreadSlot). (t s).in_use ≡ true → s < pthread_max)
        (exit_slots-found slots j v (bound k) f) (λ h. ground (arith, b s)) h
  Move-within f (Move.exit {o = lost k} v) b u s h =
      subst (λ (t : ℕ → ThreadSlot). (t s).in_use ≡ true → s < pthread_max)
        (exit_slots-found slots j v (lost k) f) (b s) h
  Move-within f Move.quit b u s h = b s h
  Move-within f Move.end b u s h = b s h
