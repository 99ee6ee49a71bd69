-- ===== src/Mpi/Startup/World.antt =====
-- `MPI_Init` of src/mpi.c in a world of ranks: the calls of all ranks together.
use neoos_libneoos.Mpi.Launch.{ranked, parse_rank_args}
use neoos_libneoos.Mpi.Collective.Ranks.{packets_with, sent_by}
use neoos_libneoos.Mpi.Startup.Ranks.{
  told, go_wait-OtherMeets, rendezvous_root-RootMeets, OtherMeets, RootMeets,
}
use neoos_libneoos.Mpi.Startup.Passed.{Passed-success, Passed-packets, mpi_init-Passed, Passed}
use neoos_libneoos.Mpi.Startup.Hellos.{heard}
use neoos_libneoos.Mpi.Defs.{mpi_success, tag_go, tag_hello, mpi_max_ranks}
use neoos_libneoos.Mpi.State.{done, Packet, Run, Mpi}
use neoos_libneoos.Base.{
  ℕ, ◌≤◌, ◌<◌, ◌≡◌, refl, sym, ◌∙◌, ap, subst, arith, Bool, true, false, some, List, if◌then◌else◌,
  Bool-cases, inl, inr, dec_lt, ℕ_discrete,
}
use neoos_libneoos.Base.Int.{pos, eqb_ℤ}
use neoos_libneoos.Mpi.Startup.{Net, InitEnd, mpi_init, meet}

-- The processes of a world of `n` ranks before `MPI_Init`: what the kernel grants each, its arguments and
-- its state.
pub record Processes : Type 0 where
  pub net : ℕ → Net
  pub args : ℕ → List (List ℕ)
  pub state : ℕ → Mpi

abbrev pub init_of : Processes → ℕ → Run InitEnd
init_of w j = mpi_init (w.net j) (some (w.args j)) (w.state j)

-- What rank `j` has sent in the end, if the ranks with `entered` call `MPI_Init`.
abbrev pub outbox : Processes → (ℕ → Bool) → ℕ → List Packet
outbox w entered j = if entered j then sent_by (init_of w j) (w.state j).sent else (w.state j).sent

-- Each process has the arguments of its rank.
pub record IsStarting (n : ℕ) (w : Processes) : Type 0 where
  pub at_most : n ≤ mpi_max_ranks
  pub parsed : (j : ℕ) → j < n → parse_rank_args (w.args j) ≡ ranked j n
  pub fresh : (j : ℕ) → j < n → (w.state j).ready ≡ false
  pub no_hello : (j : ℕ) → j < n → packets_with tag_hello (w.state j).sent ≡ 0
  pub no_go : (j : ℕ) → j < n → packets_with tag_go (w.state j).sent ≡ 0

-- What the network does: it invents no hello of a rank, and no GO. It may lose, delay, reorder and
-- duplicate.
pub record Honest (n : ℕ) (w : Processes) (entered : ℕ → Bool) : Type 0 where
  pub hellos :
      (j : ℕ)
      → j < n
      → heard j (w.state 0).inbox ≡ true
      → 0 < packets_with tag_hello (outbox w entered j)
  pub gos :
      (i : ℕ)
      → i < n
      → told (w.state i).inbox ≡ true
      → (k : ℕ) × (k < n) × (0 < packets_with tag_go (outbox w entered k))

module _ (n : ℕ) (w : Processes) (entered : ℕ → Bool) (start : IsStarting n w)
    (honest : Honest n w entered) (many : 1 < n) where
  -- The state in which rank `j` meets the others.
  at : ℕ → Mpi
  at j = record (w.state j) { rank = pos j; size = pos n; sock = (w.net j).socket; ready = true }

  run_of :
      (j : ℕ)
      → j < n
      → Passed (λ (e : InitEnd). e.code) (meet (at j)) (w.state j).sent (init_of w j)
  unfolding at
  run_of j lt =
      mpi_init-Passed (w.net j) (w.args j) (w.state j) j n (start.parsed j lt) (start.fresh j lt)
        many

  root_meets : RootMeets n (at 0) (meet (at 0))
  unfolding at meet
  root_meets = rendezvous_root-RootMeets n (at 0) refl (omega arith) (omega arith)

  rank_meets : (j : ℕ) → 0 < j → j < n → OtherMeets (at j) (w.state j).inbox (meet (at j))
  unfolding at meet
  rank_meets j other lt =
      let behind : eqb_ℤ (pos j) (pos 0) ≡ false = ground arith in
      rw behind (go_wait-OtherMeets (w.state j).inbox 0 (at j) (omega (arith, start.at_most)))

  box_in : (j : ℕ) → entered j ≡ true → outbox w entered j ≡ sent_by (init_of w j) (w.state j).sent
  box_in j h = rw h refl

  box_out : (j : ℕ) → entered j ≡ false → outbox w entered j ≡ (w.state j).sent
  box_out j h = rw h refl

  -- Who has sent a hello has entered.
  hello_entered :
      (j : ℕ) → j < n → 0 < packets_with tag_hello (outbox w entered j) → entered j ≡ true
  hello_entered j lt out = elim (Bool-cases (entered j)) [
    | inl here ↦ here
    | inr away ↦
        absurd (omega (arith, ap (packets_with tag_hello) (box_out j away), start.no_hello j lt))
  ]

  -- What a GO shows, and what success at rank 0 shows.
  go_shows :
      (k : ℕ)
      → k < n
      → 0 < packets_with tag_go (outbox w entered k)
      → (entered 0 ≡ true) × ((j : ℕ) → 0 < j → j < n → heard j (w.state 0).inbox ≡ true)
  unfolding at
  go_shows k lt out = elim (Bool-cases (entered k)) [
    | inr away ↦ absurd (omega (arith, ap (packets_with tag_go) (box_out k away), start.no_go k lt))
    | inl here ↦ elim (ℕ_discrete 0 k) [
      | no ne ↦ absurd (
          omega (
            arith,
            ap (packets_with tag_go) (box_in k here),
            Passed-packets (λ (e : InitEnd). e.code) (meet (at k)) (w.state k).sent (init_of w k)
                tag_go 0 (run_of k lt) (start.no_go k lt)
                ((rank_meets k (omega arith) lt).no_go (w.state k).sent ∙ start.no_go k lt),
          ))
      | yes e ↦
          let here₀ : entered 0 ≡ true = subst (λ i. entered i ≡ true) (sym e) here in
          (
            here₀,
            elim root_meets.outcome [
              | inl all ↦ all
              | inr (silent, _) ↦ absurd (
                  omega (
                    arith,
                    out,
                    ap (λ i. packets_with tag_go (outbox w entered i)) e,
                    ap (packets_with tag_go) (box_in 0 here₀),
                    Passed-packets (λ (e : InitEnd). e.code) (meet (at 0)) (w.state 0).sent
                        (init_of w 0) tag_go 0 (run_of 0 (omega arith))
                        (start.no_go 0 (omega arith))
                        (ap (packets_with tag_go) (silent (w.state 0).sent)
                          ∙ start.no_go 0 (omega arith)),
                  ))
            ],
          )
    ]
  ]

  root_shows :
      (st₁ : Mpi)
      → meet (at 0) ≡ done mpi_success st₁
      → (j : ℕ) → 0 < j
      → j < n
      → heard j (w.state 0).inbox ≡ true
  unfolding at
  root_shows st₁ run = elim root_meets.outcome [
    | inl all ↦ all
    | inr (_, bad) ↦ absurd (bad st₁ run)
  ]

  all_entered :
      entered 0 ≡ true
      → ((j : ℕ) → 0 < j → j < n → heard j (w.state 0).inbox ≡ true)
      → (j : ℕ) → j < n
      → entered j ≡ true
  all_entered first all j lt = elim (ℕ_discrete 0 j) [
    | yes e ↦ subst (λ i. entered i ≡ true) e first
    | no ne ↦ hello_entered j lt (honest.hellos j lt (all j (omega arith) lt))
  ]

  init_holds_many :
      (i : ℕ) (e : InitEnd) (st' : Mpi)
      → i < n
      → entered i ≡ true
      → init_of w i ≡ done e st'
      → e.code ≡ mpi_success
      → (j : ℕ) → j < n
      → entered j ≡ true
  init_holds_many i e st' lt here run ok =
      let (st₁, met) =
        Passed-success (λ (e : InitEnd). e.code) (meet (at i)) (w.state i).sent (init_of w i) e st'
          (run_of i lt) run ok in
      elim (ℕ_discrete 0 i) [
        | yes first ↦
            all_entered (subst (λ k. entered k ≡ true) (sym first) here)
              (root_shows st₁ (ap (λ k. meet (at k)) first ∙ met))
        | no ne ↦
            let (k, below, out) =
              honest.gos i lt ((rank_meets i (omega arith) lt).was_told st₁ met) in
            let (first, all) = go_shows k below out in all_entered first all
      ]

-- No rank leaves `MPI_Init` with success before every rank has entered it: in a world whose processes were
-- started with the arguments of their ranks, on a network that invents neither hellos nor GOs but may lose,
-- delay, reorder and duplicate them, if some call returns MPI_SUCCESS, every rank has called `MPI_Init`.
pub init_holds :
    (n : ℕ) (w : Processes) (entered : ℕ → Bool)
    → IsStarting n w
    → Honest n w entered
    → (i : ℕ) (e : InitEnd) (st' : Mpi) → i < n
    → entered i ≡ true
    → init_of w i ≡ done e st'
    → e.code ≡ mpi_success
    → (j : ℕ) → j < n
    → entered j ≡ true
init_holds n w entered start honest i e st' lt here run ok j below = elim (dec_lt 1 n) [
  | yes many ↦ init_holds_many n w entered start honest many i e st' lt here run ok j below
  | no one ↦ let equal : i ≡ j = omega arith in subst (λ k. entered k ≡ true) equal here
]
