-- ===== src/Mpi/Reduction.antt =====
-- `MPI_Reduce` and `MPI_Allreduce` of src/mpi.c. Buffers are lists of bytes; how the elements of a type
-- stand in them is the C compiler's, and enters as a record.
pub mod Fold
pub mod Root
pub mod Allreduce
pub mod Other
pub mod World
mod Tests
use neoos_libneoos.Base.{
  ℕ, zero, suc, ◌+◌, ◌-◌, ◌*◌, ◌^◌, ◌==◌, Bool, not, ◌||◌, Option, none, some, List, [], ◌++◌,
  if◌then◌else◌, ltb, leb, length, take, drop,
}
use neoos_libneoos.Base.Int.{ℤ, pos, pos_part, neg_part, eqb_ℤ, ltb_ℤ, leb_ℤ}
use neoos_libneoos.Mpi.Defs.{
  neqb_ℤ, mpi_comm_world, mpi_success, mpi_err_comm, mpi_err_other, mpi_err_rank, mpi_err_op,
  mpi_err_type, mpi_err_count, mpi_err_truncate, mpi_max_message, mpi_sum, mpi_min, any_source,
  type_size,
}
use neoos_libneoos.Mpi.State.{Mpi, Run, done, waiting, undefined, out_of_fuel, ◌>>=◌, pure}
use neoos_libneoos.Mpi.Send.{coll_tag, coll_reduce, mpi_send}
use neoos_libneoos.Mpi.Receive.{Received, got, error, recv_match}
use neoos_libneoos.Mpi.Reduce.{Arithmetic, reduce_apply}
use neoos_libneoos.Mpi.Collective.{next_seq, mpi_bcast}

-- The elements that the bytes of a buffer are, and the bytes of elements.
pub record Format (A : Type 0) : Type 0 where
  pub load : List ℕ → List A
  pub store : List A → List ℕ

module _ {A : Type 0} (ar : Arithmetic A) (fmt : Format A) where
  -- `reduce_apply(recvbuf, got.data, count, type, op)`, with `n` bytes at stake.
  unfoldable pub apply_bytes : List ℕ → List ℕ → ℕ → ℕ → ℤ → ℤ → ℕ × List ℕ
  unfolding reduce_apply
  apply_bytes recvbuf body n count type op =
      let (rc, d) = reduce_apply ar (fmt.load (take n recvbuf)) (fmt.load body) count type op in
      (rc, fmt.store d ++ drop n recvbuf)

  -- One round of the loop of the root, from `recv_match` on: the code, and `recvbuf`.
  unfoldable pub fold_in : Received → List ℕ → ℕ → ℕ → ℤ → ℤ → ℕ × List ℕ
  unfolding apply_bytes
  fold_in (error rc) recvbuf n count type op = (rc, recvbuf)
  fold_in (got m) recvbuf n count type op =
      if not (length m.body == n)
      then (mpi_err_truncate, recvbuf)
      else apply_bytes recvbuf m.body n count type op

  -- The loop of the root: `k` contributions are to come.
  unfoldable pub fold_loop : ℕ → ℤ → List ℕ → ℕ → ℕ → ℤ → ℤ → Mpi → Run (ℕ × List ℕ)
  unfolding fold_in recv_match
  fold_loop zero tag recvbuf n count type op = pure (mpi_success, recvbuf)
  fold_loop (suc k) tag recvbuf n count type op = recv_match any_source tag >>= λ got st.
      let (rc, buf) = fold_in got recvbuf n count type op in
      let rest = fold_loop k tag buf n count type op st in
      if rc == mpi_success then rest else done (rc, buf) st

  -- The end of `MPI_Reduce`, from `coll_seq++` on. At the root `memcpy` takes `count * esz` as a
  -- uint64_t, which a negative `count` makes a length that no buffer has.
  unfoldable pub reduce_sized : List ℕ → List ℕ → ℤ → ℕ → ℤ → ℤ → ℤ → ℤ → Mpi → Run (ℕ × List ℕ)
  unfolding fold_loop
  reduce_sized sendbuf recvbuf count esz type op root comm st₀ =
      let st = next_seq st₀ in
      let tag = coll_tag coll_reduce st.coll_seq in
      let n = pos_part count * esz in
      if neqb_ℤ st.rank root
      then (mpi_send sendbuf count type root tag comm >>= λ rc. pure (rc, recvbuf)) st
      else if ltb_ℤ count (pos 0)
      then undefined
      else fold_loop (pos_part st.size - 1) tag (take n sendbuf ++ drop n recvbuf) n
          (pos_part count) type op st

  -- `MPI_Reduce`: the code, and `recvbuf` afterwards.
  unfoldable pub mpi_reduce : List ℕ → List ℕ → ℤ → ℤ → ℤ → ℤ → ℤ → Mpi → Run (ℕ × List ℕ)
  unfolding reduce_sized type_size
  mpi_reduce sendbuf recvbuf count type op root comm st =
      if neqb_ℤ comm mpi_comm_world
      then done (mpi_err_comm, recvbuf) st
      else if not st.ready
      then done (mpi_err_other, recvbuf) st
      else if ltb_ℤ root (pos 0) || leb_ℤ st.size root
      then done (mpi_err_rank, recvbuf) st
      else if ltb_ℤ op mpi_sum || ltb_ℤ mpi_min op
      then done (mpi_err_op, recvbuf) st
      else elim (type_size type) [
        | none ↦ done (mpi_err_type, recvbuf) st
        | some esz ↦
            if leb (2 ^ 31) (pos_part count * esz) || ltb (2 ^ 31) (neg_part count * esz)
            then undefined
            else if ltb mpi_max_message (pos_part count * esz)
            then done (mpi_err_count, recvbuf) st
            else reduce_sized sendbuf recvbuf count esz type op root comm st
      ]

  -- `MPI_Allreduce`
  unfoldable pub mpi_allreduce : List ℕ → List ℕ → ℤ → ℤ → ℤ → ℤ → Mpi → Run (ℕ × List ℕ)
  unfolding mpi_reduce mpi_bcast
  mpi_allreduce sendbuf recvbuf count type op comm =
      mpi_reduce sendbuf recvbuf count type op (pos 0) comm >>= λ (r : ℕ × List ℕ) st.
      if r.0 == mpi_success then mpi_bcast r.1 count type (pos 0) comm st else done r st
