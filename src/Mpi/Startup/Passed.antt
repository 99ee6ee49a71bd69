-- ===== src/Mpi/Startup/Passed.antt =====
-- `MPI_Init` of src/mpi.c around its exchange of messages: it sends what that exchange sends, and it
-- succeeds only if that does.
use neoos_libneoos.Mpi.Launch.{ranked, parse_rank_args}
use neoos_libneoos.Mpi.Startup.Frame.{meet-Keeps, blocks, returns, Keeps}
use neoos_libneoos.Mpi.Collective.Ranks.{sent_by, packets_with}
use neoos_libneoos.Mpi.Defs.{mpi_err_intern, neqb_ℤ, mpi_success}
use neoos_libneoos.Base.{
  ℕ, ◌<◌, ◌≡◌, ◌≢◌, refl, sym, ◌∙◌, ap, arith, Bool, true, false, not, ◌==◌, none, some, List,
  if◌then◌else◌, Bool-cases, inl, inr, length, leb,
}
use neoos_libneoos.Base.Int.{minus, ℤ, pos, eqb_ℤ, ltb_ℤ}
use neoos_libneoos.Mpi.State.{
  is_success, addr_for_rank, bind_waiting, bind_done, ◌>>=◌, Mpi, Packet, Run, done, waiting,
}
use neoos_libneoos.Mpi.Startup.{
  Argv, with_nonblock, meet, rendezvous, Net, InitEnd, mpi_init, init_socket, init_meet,
}

-- How a call ends that runs `m` inside; it had sent `old` before.
pub data Passed {A : Type 0} (code : A → ℕ) (m : Run ℕ) (old : List Packet) (r : Run A)
    : Type 0 where
  stopped :
      (a : A) (st' : Mpi)
      → r ≡ done a st'
      → code a ≢ mpi_success
      → st'.sent ≡ old
      → Passed code m old r
  finished :
      (rc : ℕ) (a : A) (st₁ st' : Mpi)
      → m ≡ done rc st₁
      → r ≡ done a st'
      → st'.sent ≡ st₁.sent
      → (code a ≡ mpi_success → rc ≡ mpi_success)
      → Passed code m old r
  blocked : (st₁ : Mpi) → m ≡ waiting st₁ → r ≡ waiting st₁ → Passed code m old r

module _ {A : Type 0} (code : A → ℕ) (m : Run ℕ) (old : List Packet) where
  pub Passed-packets :
      (r : Run A) (t : ℤ) (k : ℕ)
      → Passed code m old r
      → packets_with t old ≡ k
      → packets_with t (sent_by m old) ≡ k
      → packets_with t (sent_by r old) ≡ k
  Passed-packets r t k (stopped a st' run bad same) h h' =
      ap (λ (x : Run A). packets_with t (sent_by x old)) run ∙ ap (packets_with t) same ∙ h
  Passed-packets r t k (finished rc a st₁ st' inner run same only) h h' =
      ap (λ (x : Run A). packets_with t (sent_by x old)) run
      ∙ ap (packets_with t) same
      ∙ ap (λ (x : Run ℕ). packets_with t (sent_by x old)) (sym inner)
      ∙ h'
  Passed-packets r t k (blocked st₁ inner run) h h' =
      ap (λ (x : Run A). packets_with t (sent_by x old)) run
      ∙ ap (λ (x : Run ℕ). packets_with t (sent_by x old)) (sym inner)
      ∙ h'

  pub Passed-success :
      (r : Run A) (a : A) (st' : Mpi)
      → Passed code m old r
      → r ≡ done a st'
      → code a ≡ mpi_success
      → (st₁ : Mpi) × (m ≡ done mpi_success st₁)
  Passed-success r a st' (stopped b st₂ run bad same) e ok =
      let both : done a st' ≡ done b st₂ = sym e ∙ run in
      let equal : a ≡ b = cc in absurd (bad (ap code (sym equal) ∙ ok))
  Passed-success r a st' (finished rc b st₁ st₂ inner run same only) e ok =
      let both : done a st' ≡ done b st₂ = sym e ∙ run in
      let equal : a ≡ b = cc in
      (st₁, inner ∙ ap (λ c. done c st₁) (only (ap code (sym equal) ∙ ok)))
  Passed-success r a st' (blocked st₁ inner run) e ok =
      let both : waiting st₁ ≡ done a st' = sym run ∙ e in absurd (cc)

if-Passed :
    {A : Type 0} {code : A → ℕ} {m : Run ℕ} {old : List Packet} (b : Bool) (x y : Run A)
    → Passed code m old x
    → Passed code m old y
    → Passed code m old (if b then x else y)
if-Passed true x y p q = p
if-Passed false x y p q = q

-- `rendezvous` of more than one rank.
pub rendezvous-Passed :
    (net : Net) (st : Mpi)
    → eqb_ℤ st.size (pos 1) ≡ false
    → Passed (λ (rc : ℕ). rc) (meet st) st.sent (rendezvous net st)
unfolding rendezvous
rendezvous-Passed net st several = rw several (
    if-Passed (ltb_ℤ net.get_flags (pos 0)) _ _ (stopped mpi_err_intern st refl (ground arith) refl)
      (if-Passed (neqb_ℤ (net.set_flags (with_nonblock net.get_flags)) (pos 0)) _ _
        (stopped mpi_err_intern st refl (ground arith) refl) (met (meet-Keeps st))))
  where
    restore : ℕ → Mpi → Run ℕ
    restore rc st' =
        if not (rc == mpi_success)
        then done rc st'
        else if neqb_ℤ (net.set_flags net.get_flags) (pos 0)
        then done mpi_err_intern st'
        else done mpi_success st'

    met : Keeps st (meet st) → Passed (λ (rc : ℕ). rc) (meet st) st.sent ((meet >>= restore) st)
    met (returns rc st' run same) =
        rw (bind_done meet restore st st' run) (elim (Bool-cases (rc == mpi_success)) [
          | inl ok ↦ rw ok (
              if-Passed (neqb_ℤ (net.set_flags net.get_flags) (pos 0)) _ _
                (finished rc mpi_err_intern st' st' run refl refl (λ e. ground arith))
                (finished rc mpi_success st' st' run refl refl (λ e. ground (arith, ok))))
          | inr bad ↦ rw bad (finished rc rc st' st' run refl refl (λ e. e))
        ])
    met (blocks st' run same) = rw (bind_waiting meet restore st st' run) (blocked st' run refl)

-- The end of `MPI_Init`.
init_meet-Passed :
    (net : Net) (argc : ℕ) (argv : Argv) (st : Mpi)
    → eqb_ℤ st.size (pos 1) ≡ false
    → Passed
        (λ (e : InitEnd). e.code)
        (meet (record st { ready = true }))
        st.sent
        (init_meet net argc argv st)
unfolding init_meet
init_meet-Passed net argc argv st several = from (rendezvous-Passed net st₁ several)
  where
    st₁ : Mpi
    st₁ = record st { ready = true }

    conclude : ℕ → Mpi → Run InitEnd
    conclude rc st' =
        if rc == mpi_success
        then done (record { code = mpi_success; argc = argc; argv = argv; closed = none }) st'
        else done (record { code = rc; argc = argc; argv = argv; closed = some st'.sock })
            (record st' { sock = minus 1; ready = false })

    from :
        Passed (λ (rc : ℕ). rc) (meet st₁) st.sent (rendezvous net st₁)
        → Passed (λ (e : InitEnd). e.code) (meet st₁) st.sent ((rendezvous net >>= conclude) st₁)
    from (stopped rc st' run bad same) =
        rw (bind_done (rendezvous net) conclude st₁ st' run)
          (elim (Bool-cases (rc == mpi_success)) [
            | inl ok ↦ absurd (bad (is_success rc ok))
            | inr other ↦ rw other (stopped _ _ refl bad same)
          ])
    from (finished inner rc st₂ st' met run same only) =
        rw (bind_done (rendezvous net) conclude st₁ st' run)
          (elim (Bool-cases (rc == mpi_success)) [
            | inl ok ↦ rw ok (finished inner _ st₂ st' met refl same (λ e. only (is_success rc ok)))
            | inr other ↦ rw other (finished inner _ st₂ _ met refl same (λ e. only e))
          ])
    from (blocked st₂ met run) =
        rw (bind_waiting (rendezvous net) conclude st₁ st₂ run) (blocked st₂ met refl)

-- `MPI_Init` with arguments that name a rank of a world of more than one.
pub mpi_init-Passed :
    (net : Net) (args : List (List ℕ)) (st : Mpi) (rank size : ℕ)
    → parse_rank_args args ≡ ranked rank size
    → st.ready ≡ false
    → 1 < size
    → Passed
        (λ (e : InitEnd). e.code)
        (meet (record st { rank = pos rank; size = pos size; sock = net.socket; ready = true }))
        st.sent
        (mpi_init net (some args) st)
unfolding mpi_init init_socket
mpi_init-Passed net args st rank size parsed fresh several = rw fresh (
    rw parsed (
      if-Passed (ltb_ℤ net.socket (pos 0)) _ _ (stopped _ _ refl (ground arith) refl) (
        if-Passed (neqb_ℤ (net.bind (addr_for_rank (pos rank))) (pos 0)) _ _
          (stopped _ _ refl (ground arith) refl)
          (if-Passed (leb 3 (length args)) _ _
            (init_meet-Passed net _ _
              (record st { rank = pos rank; size = pos size; sock = net.socket }) (ground arith))
            (init_meet-Passed net _ _
              (record st { rank = pos rank; size = pos size; sock = net.socket })
              (ground arith))))))
