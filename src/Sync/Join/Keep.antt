-- ===== src/Sync/Join/Keep.antt =====
-- Single steps of src/pthread.c keep the invariant of its table.
use neoos_libneoos.Base.{sym, subst, ℕ, ◌<◌, ◌≡◌, ◌≢◌, refl, ◌∙◌, ap, arith, true, some}
use neoos_libneoos.Base.Census.{put}
use neoos_libneoos.Sync.Join.{
  ThreadSlot, Own, foreign, routine, fetching, Pc, unborn, entering, tagged, active, ended, reaped,
  gone, Move,
}
use neoos_libneoos.Sync.Join.Right.{holds, Right, Marks, Fetches, Inv}
use neoos_libneoos.Sync.Join.Effect.{Effect, held-in_use, Effect-Inv}
use neoos_libneoos.Sync.Join.Value.{slot_for_tid-active}
use neoos_libneoos.Sync.Join.Moves.{Found, Move-keeps, Move-count, Move-Right, Move-within}
use neoos_libneoos.Sync.Join.Marks.{carry, Move-Marks}

-- A thread that runs, and one that nobody has reaped.
abbrev Live : Pc → Type 0
Live unborn = ⊥
Live (reaped o v by) = ⊥
Live (gone o) = ⊥
Live _ = Unit

Move-Live :
    {slots : ℕ → ThreadSlot} {j : ℕ} {slots' : ℕ → ThreadSlot} {p p' : Pc}
    → Move slots j p slots' p'
    → Live p
Move-Live (Move.claim g e) = tt
Move-Live (Move.full e) = tt
Move-Live Move.refuse = tt
Move-Live Move.give_back = tt
Move-Live Move.no_storage = tt
Move-Live Move.store_tid = tt
Move-Live Move.enter = tt
Move-Live (Move.return v) = tt
Move-Live Move.keep = tt
Move-Live Move.finish = tt
Move-Live (Move.exit v) = tt
Move-Live Move.quit = tt
Move-Live Move.end = tt

Move-Fetches :
    {slots : ℕ → ThreadSlot} {j : ℕ} {slots' : ℕ → ThreadSlot} {p p' : Pc} (n : ℕ) (pc : ℕ → Pc)
    → Move slots j p slots' p'
    → Fetches n pc j p'
Move-Fetches n pc (Move.claim g e) = tt
Move-Fetches n pc (Move.full e) = tt
Move-Fetches n pc Move.refuse = tt
Move-Fetches n pc Move.give_back = tt
Move-Fetches n pc Move.no_storage = tt
Move-Fetches n pc Move.store_tid = tt
Move-Fetches n pc Move.enter = tt
Move-Fetches n pc (Move.return v) = tt
Move-Fetches n pc Move.keep = tt
Move-Fetches n pc Move.finish = tt
Move-Fetches n pc (Move.exit v) = tt
Move-Fetches n pc Move.quit = tt
Move-Fetches n pc Move.end = tt

abbrev pub Unreaped : Pc → Type 0
Unreaped (reaped o v by) = ⊥
Unreaped _ = Unit

Live-Unreaped : (p : Pc) → Live p → Unreaped p
Live-Unreaped (entering f k) l = tt
Live-Unreaped (tagged f k) l = tt
Live-Unreaped (active o p) l = tt
Live-Unreaped (ended o v) l = tt
Live-Unreaped unborn l = tt
Live-Unreaped (gone o) l = tt
Live-Unreaped (reaped o v by) l = l

module _ {n : ℕ} {slots : ℕ → ThreadSlot} {pc : ℕ → Pc} (inv : Inv n slots pc) (j : ℕ) where
  pub fetched :
      (i : ℕ) (o : Own)
      → i < n
      → pc i ≡ active o (fetching j)
      → (j < n) × ((own : Own) × (v : ℕ) × (pc j ≡ reaped own v (some i)))
  fetched i o li e = subst (Fetches n pc i) e (inv.fetches i li)

  pub unfetched : Unreaped (pc j) → (i : ℕ) (o : Own) → i < n → pc i ≡ active o (fetching j) → ⊥
  unfetched live i o li e = let (lt, (own, v, was)) = fetched i o li e in subst Unreaped was live

  pub old_Marks :
      (s : ℕ) → (slots s).in_use ≡ true → (slots s).tid ≢ 0 → (slots s).tid ≡ j → Marks s (pc j)
  old_Marks s u t e = subst (λ k. Marks s (pc k)) e (inv.marks s u t).1

  -- A step that leaves the table alone.
  pub still-Effect :
      (p : Pc)
      → ((s : ℕ) → holds s p ≡ holds s (pc j))
      → Right slots j p
      → ((s : ℕ) → Marks s (pc j) → Marks s p)
      → Fetches n (put pc j p) j p
      → ((i : ℕ) (o : Own) → i < n → pc i ≡ active o (fetching j) → ⊥)
      → Effect n slots pc j slots p
  still-Effect p same right marks fetches alone = record {
    keeps = λ s h u. refl;
    count = λ s. omega (arith, same s);
    right = right;
    marks = λ s u t. carry slots j slots s (old_Marks s) u refl t (marks s);
    fetches = fetches;
    alone = alone;
    within = inv.within;
  }

  found : j ≢ 0 → j < n → (p : Pc) → pc j ≡ p → Found slots j p
  found nonzero lj (active o p) e = slot_for_tid-active inv j nonzero o p lj e
  found nonzero lj unborn e = tt
  found nonzero lj (entering f k) e = tt
  found nonzero lj (tagged f k) e = tt
  found nonzero lj (ended o v) e = tt
  found nonzero lj (reaped o v by) e = tt
  found nonzero lj (gone o) e = tt

  Live-nonzero : Live (pc j) → j ≢ 0
  Live-nonzero live e = subst Live (ap pc e ∙ inv.nobody) live

  Move-Effect :
      {slots' : ℕ → ThreadSlot} {p : Pc}
      → j < n
      → Move slots j (pc j) slots' p
      → Effect n slots pc j slots' p
  Move-Effect {slots'} {p} lj mv =
      let find = found (Live-nonzero (Move-Live mv)) lj (pc j) refl in
      record {
        keeps = Move-keeps find mv;
        count = λ s. Move-count find mv s (held-in_use j s inv lj);
        right = Move-Right find mv (λ s. held-in_use j s inv lj) (inv.right j lj);
        marks = Move-Marks slots j find mv old_Marks;
        fetches = Move-Fetches n (put pc j p) mv;
        alone = unfetched (Live-Unreaped (pc j) (Move-Live mv));
        within = Move-within find mv inv.within (λ s. held-in_use j s inv lj);
      }

  pub move-Inv :
      {slots' : ℕ → ThreadSlot} {p : Pc}
      → j < n
      → Move slots j (pc j) slots' p
      → Inv n slots' (put pc j p)
  move-Inv lj mv = Effect-Inv j lj (Live-nonzero (Move-Live mv)) inv (Move-Effect lj mv)

  pub spawn-Inv : j < n → 0 < j → pc j ≡ unborn → Inv n slots (put pc j (active foreign routine))
  spawn-Inv lj pos e =
      Effect-Inv j lj (λ z. omega (arith, z, pos)) inv
        (still-Effect (active foreign routine) (λ s. ap (holds s) (sym e)) (tt, tt)
          (λ s m. subst (Marks s) e m) tt (unfetched (subst Unreaped (sym e) tt)))
