-- ===== src/Mpi/Collective/Barrier.antt =====
-- `MPI_Barrier` of src/mpi.c in a world of ranks: the calls of all ranks together.
use neoos_libneoos.Mpi.Receive.Accept.{at_hand, accepted}
use neoos_libneoos.Mpi.Collective.Tokens.{
  from_ranks-prefix, everyone, count_from-prefix, count_from-accepted, count_from, from_ranks,
}
use neoos_libneoos.Mpi.Collective.Ranks.{
  barrier_other-OtherRank, barrier_root-RootRank, OtherRank, RootRank, packets_with, sent_by,
}
use neoos_libneoos.Mpi.Defs.{mpi_success, Message, any_source, mpi_max_ranks, mpi_comm_world}
use neoos_libneoos.Mpi.Pending.Chain.{IsQueue, Cells}
use neoos_libneoos.Mpi.State.{done, Packet, Mpi}
use neoos_libneoos.Base.{
  ℕ_discrete, Bool-cases, ℕ, ◌-◌, ◌≤◌, ◌<◌, ◌≡◌, refl, sym, ◌∙◌, ap, subst, arith, Bool, true,
  false, List, ◌++◌, length, if◌then◌else◌, dec_lt, inl, inr,
}
use neoos_libneoos.Base.Int.{pos, IsInt}
use neoos_libneoos.Mpi.Collective.{mpi_barrier, next_seq}
use neoos_libneoos.Mpi.Collective.Entry.{
  token_tag, release_tag, tags_IsInt, barrier-at_root, barrier-at_rank,
}

-- What rank `j` has sent in the end, if the ranks with `entered` call `MPI_Barrier`.
abbrev pub outbox : (ℕ → Mpi) → (ℕ → Bool) → ℕ → List Packet
outbox st entered j =
    if entered j then sent_by (mpi_barrier mpi_comm_world (st j)) (st j).sent else (st j).sent

-- A world of `n` ranks that are ready, whose collectives have come to the same number.
pub record IsWorld (n seq : ℕ) (st : ℕ → Mpi) (xs : ℕ → Cells) : Type 0 where
  pub at_most : n ≤ mpi_max_ranks
  pub rank : (j : ℕ) → j < n → (st j).rank ≡ pos j
  pub size : (j : ℕ) → j < n → (st j).size ≡ pos n
  pub ready : (j : ℕ) → j < n → (st j).ready ≡ true
  pub coll_seq : (j : ℕ) → j < n → (st j).coll_seq ≡ seq
  pub queue : (j : ℕ) → j < n → IsQueue (st j).pool (xs j)

-- What the network does: rank 0 gets tokens of ranks of the world only, no rank gets more messages of a
-- rank with a tag of the barrier than that rank sends, and none was sent before it entered.
pub record Network (n seq : ℕ) (st : ℕ → Mpi) (xs : ℕ → Cells) (entered : ℕ → Bool) : Type 0 where
  pub known : from_ranks n (accepted any_source (token_tag seq) (at_hand (xs 0) (st 0))) ≡ true
  pub tokens :
      (j : ℕ)
      → j < n
      → length (accepted (pos j) (token_tag seq) (at_hand (xs 0) (st 0)))
        ≤ packets_with (token_tag seq) (outbox st entered j)
  pub releases :
      (i : ℕ)
      → i < n
      → length (accepted (pos 0) (release_tag seq) (at_hand (xs i) (st i)))
        ≤ packets_with (release_tag seq) (outbox st entered 0)
  pub fresh :
      (j : ℕ)
      → j < n
      → (packets_with (token_tag seq) (st j).sent ≡ 0)
        × (packets_with (release_tag seq) (st j).sent ≡ 0)

module _ (n seq : ℕ) (st : ℕ → Mpi) (xs : ℕ → Cells) (entered : ℕ → Bool)
    (world : IsWorld n seq st xs) (net : Network n seq st xs entered) (many : 1 < n) where
  rank_IsInt : (j : ℕ) → j < n → IsInt (st j).rank
  rank_IsInt j lt = rw (world.rank j lt) (omega (arith, world.at_most))

  root_run :
      RootRank
        (n - 1)
        (token_tag seq)
        (next_seq (st 0))
        (at_hand (xs 0) (st 0))
        (mpi_barrier mpi_comm_world (st 0))
  root_run =
      let zero_in : 0 < n = omega arith in
      let (in_range, out_range, apart) = tags_IsInt seq in
      subst (RootRank (n - 1) (token_tag seq) (next_seq (st 0)) (at_hand (xs 0) (st 0)))
        (sym (
          barrier-at_root n seq (st 0) many (world.rank 0 zero_in) (world.size 0 zero_in)
            (world.ready 0 zero_in) (world.coll_seq 0 zero_in)))
        (barrier_root-RootRank (n - 1) (token_tag seq) (release_tag seq) (next_seq (st 0)) (xs 0)
          (rank_IsInt 0 zero_in) out_range apart (world.ready 0 zero_in) (world.queue 0 zero_in))

  rank_run :
      (j : ℕ)
      → 0 < j
      → j < n
      → OtherRank
          (token_tag seq)
          (release_tag seq)
          (next_seq (st j))
          (at_hand (xs j) (st j))
          (mpi_barrier mpi_comm_world (st j))
  rank_run j other lt =
      let (in_range, out_range, apart) = tags_IsInt seq in
      subst (OtherRank (token_tag seq) (release_tag seq) (next_seq (st j)) (at_hand (xs j) (st j)))
        (sym (
          barrier-at_rank n seq j (st j) many other (world.rank j lt) (world.size j lt)
            (world.ready j lt) (world.coll_seq j lt)))
        (barrier_other-OtherRank (token_tag seq) (release_tag seq) n (next_seq (st j)) (xs j)
          (rank_IsInt j lt) in_range (world.ready j lt) (world.size j lt) many (world.queue j lt))

  box_in :
      (j : ℕ)
      → entered j ≡ true
      → outbox st entered j ≡ sent_by (mpi_barrier mpi_comm_world (st j)) (st j).sent
  box_in j h = rw h refl

  box_out : (j : ℕ) → entered j ≡ false → outbox st entered j ≡ (st j).sent
  box_out j h = rw h refl

  -- The tokens of rank 0, of the other ranks, and of the ranks that are not there.
  tokens_root : packets_with (token_tag seq) (outbox st entered 0) ≡ 0
  tokens_root = elim (Bool-cases (entered 0)) [
    | inl there ↦
        ap (packets_with (token_tag seq)) (box_in 0 there)
        ∙ root_run.none_in (st 0).sent
        ∙ (net.fresh 0 (omega arith)).0
    | inr away ↦ ap (packets_with (token_tag seq)) (box_out 0 away) ∙ (net.fresh 0 (omega arith)).0
  ]

  tokens_away :
      (j : ℕ) → j < n → entered j ≡ false → packets_with (token_tag seq) (outbox st entered j) ≡ 0
  tokens_away j lt away = ap (packets_with (token_tag seq)) (box_out j away) ∙ (net.fresh j lt).0

  tokens_once : (j : ℕ) → 0 < j → j < n → packets_with (token_tag seq) (outbox st entered j) ≤ 1
  tokens_once j other lt = elim (Bool-cases (entered j)) [
    | inl there ↦ omega (
      arith,
      ap (packets_with (token_tag seq)) (box_in j there),
      (rank_run j other lt).one_in (st j).sent,
      (net.fresh j lt).0,
    )
    | inr away ↦ omega (arith, tokens_away j lt away)
  ]

  -- Once rank 0 has all tokens, all ranks are there.
  all_there :
      (ms more : List Message)
      → accepted any_source (token_tag seq) (at_hand (xs 0) (st 0)) ≡ ms ++ more
      → length ms ≡ n - 1
      → entered 0 ≡ true
      → (j : ℕ) → j < n
      → entered j ≡ true
  all_there ms more split all there j lt = elim (ℕ_discrete 0 j) [
    | yes e ↦ subst (λ i. entered i ≡ true) e there
    | no ne ↦ elim (Bool-cases (entered j)) [
      | inl here ↦ here
      | inr away ↦ absurd (
          omega (
            arith,
            counted j lt,
            tokens_away j lt away,
            everyone n ms (from_ranks-prefix n ms more (ap (from_ranks n) (sym split) ∙ net.known))
                (omega arith) (omega (arith, counted 0 (omega arith), tokens_root)) once j
                (omega arith) lt,
          ))
    ]
  ]
    where
      counted :
          (i : ℕ) → i < n → count_from i ms ≤ packets_with (token_tag seq) (outbox st entered i)
      counted i p = omega (
        arith,
        net.tokens i p,
        count_from-accepted i (token_tag seq) (at_hand (xs 0) (st 0)),
        ap (count_from i) split,
        count_from-prefix i ms more,
      )

      once : (i : ℕ) → i < n → count_from i ms ≤ 1
      once i p = elim (ℕ_discrete 0 i) [
        | yes e ↦ omega (
          arith,
          counted i p,
          ap (λ k. packets_with (token_tag seq) (outbox st entered k)) e,
          tokens_root,
        )
        | no ne ↦ omega (arith, counted i p, tokens_once i (omega arith) p)
      ]

  -- A rank other than 0 that has been released shows that rank 0 is there, and that it has all tokens.
  root_done :
      0 < packets_with (release_tag seq) (outbox st entered 0)
      → (entered 0 ≡ true)
        × ((ms more : List Message) × (accepted any_source (token_tag seq) (at_hand (xs 0) (st 0))
              ≡ ms ++ more)
            × (length ms ≡ n - 1))
  root_done out = elim (Bool-cases (entered 0)) [
    | inr away ↦ absurd (
        omega (
          arith,
          ap (packets_with (release_tag seq)) (box_out 0 away),
          (net.fresh 0 (omega arith)).1,
        ))
    | inl there ↦ (
      there,
      elim root_run.outcome [
        | inl tokens ↦ tokens
        | inr (silent, _) ↦ absurd (
            omega (
              arith,
              ap (packets_with (release_tag seq)) (box_in 0 there ∙ silent (st 0).sent),
              (net.fresh 0 (omega arith)).1,
            ))
      ],
    )
  ]

  -- In a world of at least two ranks: see below.
  barrier_holds_many :
      (i : ℕ) (st' : Mpi)
      → i < n
      → entered i ≡ true
      → mpi_barrier mpi_comm_world (st i) ≡ done mpi_success st'
      → (j : ℕ) → j < n
      → entered j ≡ true
  barrier_holds_many i st' p there run j lt = elim (ℕ_discrete 0 i) [
    | yes e ↦ elim root_run.outcome [
      | inl (ms, more, split, all) ↦
          all_there ms more split all (subst (λ k. entered k ≡ true) (sym e) there) j lt
      | inr (_, bad) ↦ absurd (bad st' (ap (λ k. mpi_barrier mpi_comm_world (st k)) e ∙ run))
    ]
    | no ne ↦
        let (first, (ms, more, split, all)) =
          root_done
            (omega (arith, (rank_run i (omega arith) p).released st' run, net.releases i p)) in
        all_there ms more split all first j lt
  ]

-- A barrier holds: if a rank of the world that entered returns MPI_SUCCESS from `MPI_Barrier`, every rank
-- of the world has entered it. The ranks agree on `coll_seq`, and the network neither invents nor
-- duplicates the messages of the barrier; it may lose, delay and reorder them, and calls may fail or block.
pub barrier_holds :
    (n seq : ℕ) (st : ℕ → Mpi) (xs : ℕ → Cells) (entered : ℕ → Bool)
    → IsWorld n seq st xs
    → Network n seq st xs entered
    → (i : ℕ) (st' : Mpi) → i < n
    → entered i ≡ true
    → mpi_barrier mpi_comm_world (st i) ≡ done mpi_success st'
    → (j : ℕ) → j < n
    → entered j ≡ true
barrier_holds n seq st xs entered world net i st' p there run j lt = elim (dec_lt 1 n) [
  | yes many ↦ barrier_holds_many n seq st xs entered world net many i st' p there run j lt
  | no one ↦ let e : i ≡ j = omega arith in subst (λ k. entered k ≡ true) e there
]
