-- ===== src/Mpi/Send/Tags.antt =====
-- The tags of collectives, and which tags `MPI_Send` of src/mpi.c lets through.
use neoos_libneoos.Base.{false, ℕ, ◌+◌, ◌*◌, ◌%◌, ◌^◌, ◌<◌, ◌≡◌, ◌≢◌, ◌↔◌, arith, ap}
use neoos_libneoos.Base.Int.{ℤ, pos, IsInt, ltb_ℤ, pos_part}
use neoos_libneoos.Mpi.Defs.{mpi_tag_ub, tag_hello, tag_go}
use neoos_libneoos.Mpi.Send.{coll_tag, tag_refused}

pub coll_tag-pos :
    (base seq : ℕ) → base < 64 → coll_tag base seq ≡ pos (2 ^ 30 + base * 2 ^ 24 + seq % 2 ^ 24)
unfolding coll_tag
coll_tag-pos base seq h = ground arith

-- Two collective tags are equal exactly if the operation is the same and the sequence numbers agree
-- in their low 24 bits; every one lies above MPI_TAG_UB, and none is the tag of the rendezvous.
pub coll_tag-injective :
    (a b m n : ℕ)
    → a < 32
    → b < 32
    → ((coll_tag a m ≡ coll_tag b n) ↔ ((a ≡ b) × (m % 2 ^ 24 ≡ n % 2 ^ 24)))
      × (mpi_tag_ub < pos_part (coll_tag a m))
      × (coll_tag a m ≢ tag_hello)
      × (coll_tag a m ≢ tag_go)
coll_tag-injective a b m n ha hb =
    rw (coll_tag-pos a m (omega arith), coll_tag-pos b n (omega arith))
      (
        (λ e. let e' = ap pos_part e in (omega arith, omega arith), λ e. ground arith),
        omega arith,
        λ e. let e' = ap pos_part e in omega arith,
        λ e. let e' = ap pos_part e in omega arith,
      )

-- `MPI_Send` refuses exactly the negative tags: every `int` above MPI_TAG_UB has bit 30 set, so the
-- second half of the condition never holds.
pub tag_refused-negative : (tag : ℤ) → IsInt tag → tag_refused tag ≡ ltb_ℤ tag (pos 0)
unfolding tag_refused
tag_refused-negative tag h = ground arith

-- The tags of collectives are let through.
pub coll_tag-allowed : (base seq : ℕ) → base < 64 → tag_refused (coll_tag base seq) ≡ false
unfolding tag_refused coll_tag
coll_tag-allowed base seq h = ground arith

pub coll_tag_low : (base seq : ℕ) → base < 64 → ltb_ℤ (coll_tag base seq) (pos 0) ≡ false
unfolding coll_tag
coll_tag_low base seq h = ground arith

pub coll_tag-IsInt : (base seq : ℕ) → base < 64 → IsInt (coll_tag base seq)
coll_tag-IsInt base seq h = rw (coll_tag-pos base seq h) (omega arith)
