-- ===== src/Mpi/Reduction/World.antt =====
-- `MPI_Reduce` of src/mpi.c in a world of ranks: whose contributions the root folds in.
use neoos_libneoos.Mpi.Pending.{pending_slots}
use neoos_libneoos.Mpi.Receive.Match.{incoming, NoError}
use neoos_libneoos.Mpi.Reduction.Fold.{folded, Sized, IsFormat}
use neoos_libneoos.Mpi.Reduction.Root.{mpi_reduce-folded, IsRoot}
use neoos_libneoos.Mpi.Collective.{next_seq}
use neoos_libneoos.Mpi.Send.Laws.{packet_of}
use neoos_libneoos.Mpi.Reduction.Other.{mpi_reduce-sent, IsPart}
use neoos_libneoos.Mpi.Receive.Accept.{at_hand, accepted}
use neoos_libneoos.Mpi.Collective.Open.{IsOpen}
use neoos_libneoos.Mpi.Collective.Tokens.{
  from_ranks-prefix, everyone, count_from-prefix, count_from-accepted, count_from-accepted,
  count_from, from_ranks,
}
use neoos_libneoos.Mpi.Defs.{
  mpi_success, mpi_max_message, Message, any_source, mpi_comm_world, mpi_max_ranks,
}
use neoos_libneoos.Mpi.Collective.Ranks.{packets_with-one, packets_with, sent_by}
use neoos_libneoos.Mpi.Reduction.{mpi_reduce, Format}
use neoos_libneoos.Mpi.Reduce.{reducible, operation, Arithmetic}
use neoos_libneoos.Mpi.Pending.Chain.{IsQueue, Cells}
use neoos_libneoos.Mpi.Send.{coll_reduce, coll_tag}
use neoos_libneoos.Base.{
  ℕ, ◌+◌, ◌-◌, ◌*◌, ◌%◌, ◌^◌, ◌≤◌, ◌<◌, ◌≡◌, refl, sym, ◌∙◌, ap, arith, Bool, true, false, some,
  List, ◌++◌, length, take, drop, if◌then◌else◌, Bool-cases, inl, inr, ℕ_discrete,
}
use neoos_libneoos.Base.Int.{ℤ, pos}
use neoos_libneoos.Mpi.State.{Mpi, Packet, Run, done}

-- The tag of the reduction that ranks enter with `coll_seq` at `seq`.
abbrev pub part_tag : ℕ → ℤ
part_tag seq = coll_tag coll_reduce ((seq + 1) % 2 ^ 32)

-- What the ranks of a world pass to one reduction.
pub record Parts : Type 0 where
  pub state : ℕ → Mpi
  pub queue : ℕ → Cells
  pub send : ℕ → List ℕ
  pub recv : ℕ → List ℕ
  pub entered : ℕ → Bool

module _ {A : Type 0} (ar : Arithmetic A) (fmt : Format A) (c : ℕ) (type op : ℤ) (n esz seq : ℕ)
    (w : Parts) where
  abbrev pub reduce_of : ℕ → Run (ℕ × List ℕ)
  reduce_of j =
      mpi_reduce ar fmt (w.send j) (w.recv j) (pos c) type op (pos 0) mpi_comm_world (w.state j)

  -- What rank `j` has sent in the end, if the ranks with `entered` call `MPI_Reduce`.
  abbrev pub outbox : ℕ → List Packet
  outbox j = if w.entered j then sent_by (reduce_of j) (w.state j).sent else (w.state j).sent

  -- The ranks other than 0 have come to the same collective and pass elements that fit into a message.
  pub record IsContributing : Type 0 where
    pub at_most : n ≤ mpi_max_ranks
    pub ready : (j : ℕ) → 0 < j → j < n → IsOpen n (w.state j) (w.queue j)
    pub part : (j : ℕ) → 0 < j → j < n → IsPart n j c esz type (w.state j)
    pub coll_seq : (j : ℕ) → j < n → (w.state j).coll_seq ≡ seq
    pub fresh : (j : ℕ) → j < n → packets_with (part_tag seq) (w.state j).sent ≡ 0

  -- The network brings to rank 0 contributions of ranks of the world only, and of none more than it sends.
  pub record Brings : Type 0 where
    pub known :
        from_ranks n (accepted any_source (part_tag seq) (at_hand (w.queue 0) (w.state 0))) ≡ true
    pub parts :
        (j : ℕ)
        → j < n
        → length (accepted (pos j) (part_tag seq) (at_hand (w.queue 0) (w.state 0)))
          ≤ packets_with (part_tag seq) (outbox j)

  module _ (f : A → A → A) (world : IsContributing) (net : Brings)
      (known : operation ar op ≡ some f) where
    box_in : (j : ℕ) → w.entered j ≡ true → outbox j ≡ sent_by (reduce_of j) (w.state j).sent
    box_in j h = rw h refl

    box_out : (j : ℕ) → w.entered j ≡ false → outbox j ≡ (w.state j).sent
    box_out j h = rw h refl

    away_none : (j : ℕ) → j < n → w.entered j ≡ false → packets_with (part_tag seq) (outbox j) ≡ 0
    away_none j lt away = ap (packets_with (part_tag seq)) (box_out j away) ∙ world.fresh j lt

    -- A rank sends one contribution at most.
    one_part : (j : ℕ) → 0 < j → j < n → packets_with (part_tag seq) (outbox j) ≤ 1
    one_part j other lt = elim (Bool-cases (w.entered j)) [
      | inl here ↦
          let run =
            mpi_reduce-sent ar fmt f (w.send j) (w.recv j) c type op n j esz (w.state j) (w.queue j)
              (world.ready j other lt) (world.part j other lt) known in
          omega (
            arith,
            ap (packets_with (part_tag seq)) (box_in j here),
            ap (λ (r : Run (ℕ × List ℕ)). packets_with (part_tag seq) (sent_by r (w.state j).sent))
                run,
            packets_with-one (part_tag seq)
                (packet_of (w.send j) (pos c) type (pos 0)
                  (coll_tag coll_reduce (next_seq (w.state j)).coll_seq) esz (w.state j))
                (w.state j).sent,
            world.fresh j lt,
          )
      | inr away ↦ omega (arith, away_none j lt away)
    ]

    -- In a world whose ranks agree on `coll_seq`, on a network that neither invents nor duplicates
    -- contributions, when as many contributions as there are other ranks are at hand at rank 0 under the
    -- conditions of a reduction that succeeds: `MPI_Reduce` at rank 0 returns MPI_SUCCESS with these folded
    -- into its own elements, there is exactly one of each other rank among them, and each of these ranks has
    -- entered the reduction.
    pub reduce_each_once :
        (ms more : List Message)
        → IsRoot (w.state 0) n 0 type esz
        → w.entered 0 ≡ true
        → IsFormat fmt c (c * esz)
        → reducible type ≡ true
        → c * esz ≤ mpi_max_message
        → c * esz ≤ length (w.send 0)
        → IsQueue (w.state 0).pool (w.queue 0)
        → NoError (w.state 0).inbox
        → length (w.queue 0) + length (incoming (w.state 0).inbox) ≤ pending_slots
        → accepted any_source (part_tag seq) (at_hand (w.queue 0) (w.state 0)) ≡ ms ++ more
        → length ms ≡ n - 1
        → Sized (c * esz) ms
        → ((st' : Mpi) × (reduce_of 0
              ≡ done
                  (
                    mpi_success,
                    fmt.store (folded ar fmt f (fmt.load (take (c * esz) (w.send 0))) ms)
                        ++ drop (c * esz) (w.recv 0),
                  )
                  st'))
          × ((j : ℕ) → 0 < j → j < n → (count_from j ms ≡ 1) × (w.entered j ≡ true))
    reduce_each_once ms more root here format summable fits long q quiet room split all sized =
        let tags =
          ap (λ k. coll_tag coll_reduce ((k + 1) % 2 ^ 32)) (world.coll_seq 0 root.within) in
        let (st', run, dropped, same) =
          mpi_reduce-folded ar fmt f (w.send 0) (w.recv 0) c type op n 0 esz (w.state 0) (w.queue 0)
            ms more root format summable known fits long q quiet room
            (ap (λ t. accepted any_source t (at_hand (w.queue 0) (w.state 0))) tags ∙ split) all
            sized in
        let own : packets_with (part_tag seq) (outbox 0) ≡ 0 =
          ap (packets_with (part_tag seq)) (
            box_in 0 here
            ∙ ap (λ (r : Run (ℕ × List ℕ)). sent_by r (w.state 0).sent) run
            ∙ same.sent)
          ∙ world.fresh 0 root.within in
        (
          (st', run),
          λ j other lt.
              let some_part =
                everyone n ms
                  (from_ranks-prefix n ms more (ap (from_ranks n) (sym split) ∙ net.known))
                  (omega (arith, all, root.within))
                  (omega (arith, counted ms more split 0 root.within, own))
                  (λ i p. at_most_one ms more split own i p) j other lt in
              (
                omega (arith, some_part, at_most_one ms more split own j lt),
                came ms more split j lt some_part,
              ),
        )
      where
        counted :
            (ms more : List Message)
            → accepted any_source (part_tag seq) (at_hand (w.queue 0) (w.state 0)) ≡ ms ++ more
            → (i : ℕ) → i < n
            → count_from i ms ≤ packets_with (part_tag seq) (outbox i)
        counted ms more split i p = omega (
          arith,
          net.parts i p,
          count_from-accepted i (part_tag seq) (at_hand (w.queue 0) (w.state 0)),
          ap (count_from i) split,
          count_from-prefix i ms more,
        )

        at_most_one :
            (ms more : List Message)
            → accepted any_source (part_tag seq) (at_hand (w.queue 0) (w.state 0)) ≡ ms ++ more
            → packets_with (part_tag seq) (outbox 0) ≡ 0
            → (i : ℕ) → i < n
            → count_from i ms ≤ 1
        at_most_one ms more split own i p = elim (ℕ_discrete 0 i) [
          | yes e ↦ omega (
            arith,
            counted ms more split i p,
            ap (λ k. packets_with (part_tag seq) (outbox k)) e,
            own,
          )
          | no ne ↦ omega (arith, counted ms more split i p, one_part i (omega arith) p)
        ]

        came :
            (ms more : List Message)
            → accepted any_source (part_tag seq) (at_hand (w.queue 0) (w.state 0)) ≡ ms ++ more
            → (j : ℕ) → j < n
            → 0 < count_from j ms
            → w.entered j ≡ true
        came ms more split j lt h = elim (Bool-cases (w.entered j)) [
          | inl here ↦ here
          | inr away ↦ absurd (omega (arith, counted ms more split j lt, away_none j lt away))
        ]
