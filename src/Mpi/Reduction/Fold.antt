-- ===== src/Mpi/Reduction/Fold.antt =====
-- The root of `MPI_Reduce` of src/mpi.c folds the contributions in the order in which they came.
use neoos_libneoos.Mpi.Receive.Arrive.{recv_match-Untouched}
use neoos_libneoos.Base.{
  ℕ, ◌+◌, ◌≤◌, ◌≡◌, refl, ◌∙◌, ap, sym, subst, arith, true, false, not, ◌==◌, some, List, [], ◌∷◌,
  ◌++◌, length, length-append, take, drop, take-append, drop-append, if◌then◌else◌, pass, enter,
}
use neoos_libneoos.Base.Int.{ℤ}
use neoos_libneoos.Mpi.Defs.{Message, any_source, mpi_success}
use neoos_libneoos.Mpi.Pending.{pending_slots}
use neoos_libneoos.Mpi.Pending.Chain.{Cells, IsQueue, messages}
use neoos_libneoos.Mpi.State.{Mpi, Run, done, bind_done}
use neoos_libneoos.Mpi.Receive.{Received, got, recv_match}
use neoos_libneoos.Mpi.Receive.Match.{incoming, NoError, length-messages, others}
use neoos_libneoos.Mpi.Receive.Accept.{
  Untouched-trans, Untouched-record, Untouched, accepted, oldest-accepted, oldest-none,
}
use neoos_libneoos.Mpi.Receive.Laws.{Outcome, delivers, blocks, recv_match-Outcome}
use neoos_libneoos.Mpi.Reduce.{
  Arithmetic, combined, operation, reducible, reduce_apply, reduce_apply-combined,
}
use neoos_libneoos.Mpi.Reduction.{Format, apply_bytes, fold_in, fold_loop}

length-others : (tag : ℤ) (ms : List Message) → length (others any_source tag ms) ≤ length ms
unfolding others
length-others tag [] = omega arith
length-others tag (m ∷ ms) = ground (arith, length-others tag ms)

-- Each message has a body of `n` bytes.
abbrev pub Sized : ℕ → List Message → Type 0
Sized n [] = Unit
Sized n (m ∷ ms) = (length m.body ≡ n) × Sized n ms

length-combined :
    {A : Type 0} (f : A → A → A) (d s : List A)
    → length d ≡ length s
    → length (combined f d s) ≡ length d
length-combined f [] s h = refl
length-combined f (x ∷ d) [] h = absurd (omega arith)
length-combined f (x ∷ d) (y ∷ s) h = omega (arith, length-combined f d s (omega arith))

-- `c` elements in `n` bytes.
pub record IsFormat {A : Type 0} (fmt : Format A) (c n : ℕ) : Type 0 where
  pub length_load : (x : List ℕ) → length x ≡ n → length (fmt.load x) ≡ c
  pub length_store : (d : List A) → length d ≡ c → length (fmt.store d) ≡ n
  pub load_store : (d : List A) → length d ≡ c → fmt.load (fmt.store d) ≡ d
  pub store_load : (x : List ℕ) → length x ≡ n → fmt.store (fmt.load x) ≡ x

take_at : (n : ℕ) (xs ys : List ℕ) → length xs ≡ n → take n (xs ++ ys) ≡ xs
take_at n xs ys h = subst (λ k. take k (xs ++ ys) ≡ xs) h (take-append xs ys)

drop_at : (n : ℕ) (xs ys : List ℕ) → length xs ≡ n → drop n (xs ++ ys) ≡ ys
drop_at n xs ys h = subst (λ k. drop k (xs ++ ys) ≡ ys) h (drop-append xs ys)

-- What a receive of the first accepted message leaves.
record Picked (tag : ℤ) (st : Mpi) (m : Message) (rest : List Message) : Type 0 where
  state : Mpi
  cells : Cells
  run : recv_match any_source tag st ≡ done (got m) state
  queue : IsQueue state.pool cells
  quiet : NoError state.inbox
  room : length cells + length (incoming state.inbox) ≤ pending_slots
  accepts : accepted any_source tag (messages cells ++ incoming state.inbox) ≡ rest
  dropped : state.dropped ≡ st.dropped
  same : Untouched st state

pick :
    (tag : ℤ) (st : Mpi) (xs : Cells) (m : Message) (rest : List Message)
    → IsQueue st.pool xs
    → length xs + length (incoming st.inbox) ≤ pending_slots
    → accepted any_source tag (messages xs ++ incoming st.inbox) ≡ m ∷ rest
    → Outcome any_source tag st (messages xs ++ incoming st.inbox) (recv_match any_source tag st)
    → Picked tag st m rest
pick tag st xs m rest q room e (blocks st₁ run nothing left) =
    absurd (ground (arith, oldest-none any_source tag (messages xs ++ incoming st.inbox)))
pick tag st xs m rest q room e (delivers m₁ st₁ run first left) =
    let all = messages xs ++ incoming st.inbox in
    let split : m₁ ∷ accepted any_source tag (others any_source tag all) ≡ m ∷ rest =
      sym (oldest-accepted any_source tag all m₁ first) ∙ e in
    let this : m₁ ≡ m = cc in
    let later : accepted any_source tag (others any_source tag all) ≡ rest = cc in
    record {
      state = st₁;
      cells = left.cells;
      run = run ∙ ap {B = Run Received} (λ k. done (got k) st₁) this;
      queue = left.queue;
      quiet = left.quiet;
      room = omega (
        arith,
        ap length left.kept,
        length-append (messages left.cells) (incoming st₁.inbox),
        length-append (messages xs) (incoming st.inbox),
        length-messages left.cells,
        length-messages xs,
        length-others tag all,
        room,
      );
      accepts = ap (accepted any_source tag) left.kept ∙ later;
      dropped = left.dropped;
      same = recv_match-Untouched any_source tag st st₁ xs (got m₁) q run;
    }

module _ {A : Type 0} (ar : Arithmetic A) (fmt : Format A) (f : A → A → A) where
  -- The elements at the root, and then those of each message in turn.
  abbrev pub folded : List A → List Message → List A
  folded d [] = d
  folded d (m ∷ ms) = folded (combined f d (fmt.load m.body)) ms

  module _ (c n : ℕ) (type op : ℤ) (ok : IsFormat fmt c n) (summable : reducible type ≡ true)
      (known : operation ar op ≡ some f) where
    -- One contribution.
    fold_in-combined :
        (d : List A) (tail : List ℕ) (m : Message)
        → length d ≡ c
        → length m.body ≡ n
        → fold_in ar fmt (got m) (fmt.store d ++ tail) n c type op
          ≡ (mpi_success, fmt.store (combined f d (fmt.load m.body)) ++ tail)
    unfolding fold_in apply_bytes
    fold_in-combined d tail m hd hm =
        let same : not (length m.body == n) ≡ false = ground arith in
        let cut = take_at n (fmt.store d) tail (ok.length_store d hd) in
        let rest = drop_at n (fmt.store d) tail (ok.length_store d hd) in
        let loaded : fmt.load (take n (fmt.store d ++ tail)) ≡ d =
          ap fmt.load cut ∙ ok.load_store d hd in
        let equal : length d ≡ length (fmt.load m.body) = hd ∙ sym (ok.length_load m.body hm) in
        pass _ _ same (
          ap (λ (r : ℕ × List A). (r.0, fmt.store r.1 ++ drop n (fmt.store d ++ tail)))
            (ap (λ (x : List A). reduce_apply ar x (fmt.load m.body) c type op) loaded
              ∙ ap (λ (k : ℕ). reduce_apply ar d (fmt.load m.body) k type op) (sym hd)
              ∙ reduce_apply-combined ar d (fmt.load m.body) type op equal
              ∙ enter _ _ summable (rw known refl))
          ∙ ap (λ (t : List ℕ). (mpi_success, fmt.store (combined f d (fmt.load m.body)) ++ t))
              rest)

    proceed : List Message → ℤ → Mpi → ℕ × List ℕ → Run (ℕ × List ℕ)
    proceed ms tag st r =
        let rest = fold_loop ar fmt (length ms) tag r.1 n c type op st in
        if r.0 == mpi_success then rest else done r st

    next : List Message → ℤ → List A → List ℕ → Received → Mpi → Run (ℕ × List ℕ)
    next ms tag d tail r st = proceed ms tag st (fold_in ar fmt r (fmt.store d ++ tail) n c type op)

    -- All contributions.
    pub fold_loop-folded :
        (ms more : List Message) (d : List A) (tail : List ℕ) (tag : ℤ) (st : Mpi) (xs : Cells)
        → length d ≡ c
        → Sized n ms
        → IsQueue st.pool xs
        → NoError st.inbox
        → length xs + length (incoming st.inbox) ≤ pending_slots
        → accepted any_source tag (messages xs ++ incoming st.inbox) ≡ ms ++ more
        → (st' : Mpi) × (fold_loop ar fmt (length ms) tag (fmt.store d ++ tail) n c type op st
            ≡ done (mpi_success, fmt.store (folded d ms) ++ tail) st')
          × (st'.dropped ≡ st.dropped)
          × Untouched st st'
    unfolding fold_loop next proceed
    fold_loop-folded [] more d tail tag st xs hd sized q quiet room e =
        (st, refl, refl, Untouched-record st st.pool st.inbox st.dropped)
    fold_loop-folded (m ∷ ms) more d tail tag st xs hd (hm, sized) q quiet room e =
        let p =
          pick tag st xs m (ms ++ more) q room e
            (recv_match-Outcome any_source tag st xs q quiet room) in
        let d' = combined f d (fmt.load m.body) in
        let hd' : length d' ≡ c =
          length-combined f d (fmt.load m.body) (hd ∙ sym (ok.length_load m.body hm)) ∙ hd in
        let (st', runs, dropped, same) =
          fold_loop-folded ms more d' tail tag p.state p.cells hd' sized p.queue p.quiet p.room
            p.accepts in
        (
          st',
          bind_done (recv_match any_source tag) (next ms tag d tail) st p.state p.run
              ∙ ap (proceed ms tag p.state) (fold_in-combined d tail m hd hm)
              ∙ runs,
          dropped ∙ p.dropped,
          Untouched-trans p.same same,
        )
