-- ===== src/Sync/Join/Marks.antt =====
-- A slot of src/pthread.c with a tid belongs to the thread of that tid, after each access.
use neoos_libneoos.Base.{
  sym, subst, ℕ, ◌≡◌, ◌≢◌, refl, ◌∙◌, arith, true, false, ℕ_discrete, ◌⊎◌, inl, inr,
}
use neoos_libneoos.Base.Census.{put}
use neoos_libneoos.Sync.Join.{
  ThreadSlot, foreign, bound, lost, leaving, Pc, active, fresh_slot, Move,
}
use neoos_libneoos.Sync.Join.Right.{Marks}
use neoos_libneoos.Sync.Join.Moves.{Found, exited, exit_slots-found}

abbrev pub Marked : (ℕ → ThreadSlot) → (ℕ → ThreadSlot) → ℕ → Type 0 → ℕ → Type 0
Marked slots slots' j M s =
    (((slots' s).tid ≡ j) × M)
    ⊎ (((slots' s).tid ≢ j) × (((slots s).in_use ≡ true) × ((slots' s).tid ≡ (slots s).tid)))

module _ (slots : ℕ → ThreadSlot) (j : ℕ) where
  -- A slot whose tid stays.
  pub carry :
      (slots' : ℕ → ThreadSlot) {M M' : Type 0} (s : ℕ)
      → ((slots s).in_use ≡ true → (slots s).tid ≢ 0 → (slots s).tid ≡ j → M)
      → (slots s).in_use ≡ true
      → (slots' s).tid ≡ (slots s).tid
      → (slots' s).tid ≢ 0
      → (M → M')
      → Marked slots slots' j M' s
  carry slots' s old used same tid grow = elim (ℕ_discrete (slots' s).tid j) [
    | yes e ↦ inl (e, grow (old used (λ z. tid (same ∙ z)) (sym same ∙ e)))
    | no ne ↦ inr (ne, (used, same))
  ]

  pub Move-Marks :
      {slots' : ℕ → ThreadSlot} {p p' : Pc}
      → Found slots j p
      → Move slots j p slots' p'
      → ((s : ℕ) → (slots s).in_use ≡ true → (slots s).tid ≢ 0 → (slots s).tid ≡ j → Marks s p)
      → (s : ℕ) → (slots' s).in_use ≡ true
      → (slots' s).tid ≢ 0
      → Marked slots slots' j (Marks s p') s
  Move-Marks f (Move.claim g {k = k} e) old s u t =
      let ne : k ≢ s = λ q. t (ground (arith, q)) in
      carry (put slots k (fresh_slot g)) s (old s) (ground arith) (ground arith) t (λ m. m)
  Move-Marks f (Move.full e) old s u t = carry slots s (old s) u refl t (λ m. m)
  Move-Marks f Move.refuse old s u t = carry slots s (old s) u refl t (λ m. m)
  Move-Marks f (Move.give_back {k = k}) old s u t =
      carry (put slots k (record (slots k) { in_use = false })) s (old s) (ground arith)
        (ground arith) t (λ m. m)
  Move-Marks f Move.no_storage old s u t = carry slots s (old s) u refl t (λ m. m)
  Move-Marks f (Move.store_tid {k = k}) old s u t = elim (ℕ_discrete k s) [
    | yes e ↦ inl (ground arith, e)
    | no ne ↦
        carry (put slots k (record (slots k) { tid = j })) s (old s) (ground arith) (ground arith) t
          (λ m. absurd m)
  ]
  Move-Marks f Move.enter old s u t = carry slots s (old s) u refl t (λ m. m)
  Move-Marks f (Move.return v) old s u t = carry slots s (old s) u refl t (λ m. m)
  Move-Marks f (Move.keep {k = k} {v = v}) old s u t =
      carry (put slots k (record (slots k) { retval = v })) s (old s) (ground arith) (ground arith)
        t (λ m. m)
  Move-Marks f (Move.finish {k = k} {v = v}) old s u t =
      carry (put slots k (record (slots k) { finished = true })) s (old s) (ground arith)
        (ground arith) t (λ m. m)
  Move-Marks f (Move.exit {o = foreign} v) old s u t =
      subst
        (λ (w : ℕ → ThreadSlot).
          (w s).in_use ≡ true
          → (w s).tid ≢ 0
          → Marked slots w j (Marks s (active foreign (leaving 0))) s)
        (exit_slots-found slots j v foreign f) (λ u t. carry slots s (old s) u refl t (λ m. m)) u t
  Move-Marks f (Move.exit {o = bound k} v) old s u t =
      subst
        (λ (w : ℕ → ThreadSlot).
          (w s).in_use ≡ true
          → (w s).tid ≢ 0
          → Marked slots w j (Marks s (active (bound k) (leaving v))) s)
        (exit_slots-found slots j v (bound k) f)
        (λ u t. carry (exited (bound k) v slots) s (old s) (ground arith) (ground arith) t (λ m. m))
        u t
  Move-Marks f (Move.exit {o = lost k} v) old s u t =
      subst
        (λ (w : ℕ → ThreadSlot).
          (w s).in_use ≡ true
          → (w s).tid ≢ 0
          → Marked slots w j (Marks s (active (lost k) (leaving 0))) s)
        (exit_slots-found slots j v (lost k) f) (λ u t. carry slots s (old s) u refl t (λ m. m)) u t
  Move-Marks f Move.quit old s u t = carry slots s (old s) u refl t (λ m. m)
  Move-Marks f Move.end old s u t = carry slots s (old s) u refl t (λ m. m)
