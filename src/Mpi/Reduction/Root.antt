-- ===== src/Mpi/Reduction/Root.antt =====
-- `MPI_Reduce` of src/mpi.c at the root, as a whole.
use neoos_libneoos.Base.{
  ℕ, suc, ◌+◌, ◌-◌, ◌*◌, ◌^◌, ◌≤◌, ◌<◌, ◌≡◌, refl, ◌∙◌, ap, sym, arith, true, false, not, ◌||◌,
  some, List, ◌++◌, length, length-take, take, drop, ltb, leb, pass, enter,
}
use neoos_libneoos.Base.Int.{ℤ, pos, negsuc, pos_part, neg_part, ltb_ℤ, leb_ℤ}
use neoos_libneoos.Mpi.Defs.{
  any_source, Message, mpi_success, mpi_comm_world, neqb_ℤ, mpi_max_message, mpi_sum, mpi_min,
  type_size,
}
use neoos_libneoos.Mpi.Pending.{pending_slots}
use neoos_libneoos.Mpi.Pending.Chain.{Cells, IsQueue, messages}
use neoos_libneoos.Mpi.State.{Mpi, done, undefined}
use neoos_libneoos.Mpi.Send.{coll_tag, coll_reduce}
use neoos_libneoos.Mpi.Receive.Match.{incoming, NoError}
use neoos_libneoos.Mpi.Reduce.{Arithmetic, operation, reducible}
use neoos_libneoos.Mpi.Collective.{next_seq}
use neoos_libneoos.Mpi.Receive.Accept.{Untouched, accepted}
use neoos_libneoos.Mpi.Reduction.{Format, fold_loop, reduce_sized, mpi_reduce}
use neoos_libneoos.Mpi.Reduction.Fold.{Sized, IsFormat, folded, fold_loop-folded}

op_range :
    {A : Type 0} (ar : Arithmetic A) (op : ℤ) (f : A → A → A)
    → operation ar op ≡ some f
    → (ltb_ℤ op mpi_sum || ltb_ℤ mpi_min op) ≡ false
op_range ar (pos n) f h = ground arith
op_range ar (negsuc n) f h = cc

-- The root of a world of `ranks` ranks may start a reduction of elements of `esz` bytes.
pub record IsRoot (st : Mpi) (ranks r : ℕ) (type : ℤ) (esz : ℕ) : Type 0 where
  pub ready : st.ready ≡ true
  pub size : st.size ≡ pos ranks
  pub rank : st.rank ≡ pos r
  pub within : r < ranks
  pub sized : type_size type ≡ some esz

module _ {A : Type 0} (ar : Arithmetic A) (fmt : Format A) (f : A → A → A) where
  pub reduce_guards :
      (sendbuf recvbuf : List ℕ) (count : ℤ) (type op : ℤ) (ranks r esz : ℕ) (st : Mpi)
      → st.ready ≡ true
      → st.size ≡ pos ranks
      → r < ranks
      → type_size type ≡ some esz
      → operation ar op ≡ some f
      → (leb (2 ^ 31) (pos_part count * esz) || ltb (2 ^ 31) (neg_part count * esz)) ≡ false
      → ltb mpi_max_message (pos_part count * esz) ≡ false
      → mpi_reduce ar fmt sendbuf recvbuf count type op (pos r) mpi_comm_world st
        ≡ reduce_sized ar fmt sendbuf recvbuf count esz type op (pos r) mpi_comm_world st
  unfolding mpi_reduce
  reduce_guards sendbuf recvbuf count type op ranks r esz st ready size within sized known small
        fits =
      let range : (ltb_ℤ (pos r) (pos 0) || leb_ℤ st.size (pos r)) ≡ false =
        rw size (ground (arith, within)) in
      pass (not st.ready) _ (ground (arith, ready)) (
        pass _ _ range
          (pass _ _ (op_range ar op f known) (rw sized (pass _ _ small (pass _ _ fits refl)))))

  -- `MPI_Reduce` at the root, when the contributions of all other ranks, of the right size, are at hand
  -- or come in, with room for what else comes in, no error but EINTR, an arithmetic type and one of the
  -- four operations: it returns MPI_SUCCESS, and `recvbuf` holds the root's own elements, combined with
  -- the contributions one after the other, in the order in which they came; no message is dropped,
  -- none is sent, and of the process's rank, size, readiness and `coll_seq` only the last has moved, by one.
  pub mpi_reduce-folded :
      (sendbuf recvbuf : List ℕ) (c : ℕ) (type op : ℤ) (ranks r esz : ℕ) (st : Mpi) (xs : Cells)
      (ms more : List Message)
      → IsRoot st ranks r type esz
      → IsFormat fmt c (c * esz)
      → reducible type ≡ true
      → operation ar op ≡ some f
      → c * esz ≤ mpi_max_message
      → c * esz ≤ length sendbuf
      → IsQueue st.pool xs
      → NoError st.inbox
      → length xs + length (incoming st.inbox) ≤ pending_slots
      → accepted any_source
          (coll_tag coll_reduce (next_seq st).coll_seq)
          (messages xs ++ incoming st.inbox)
        ≡ ms ++ more
      → length ms ≡ ranks - 1
      → Sized (c * esz) ms
      → (st' : Mpi) × (mpi_reduce ar fmt sendbuf recvbuf (pos c) type op (pos r) mpi_comm_world st
          ≡ done
              (
                mpi_success,
                fmt.store (folded ar fmt f (fmt.load (take (c * esz) sendbuf)) ms)
                    ++ drop (c * esz) recvbuf,
              )
              st')
        × (st'.dropped ≡ st.dropped)
        × Untouched (next_seq st) st'
  unfolding reduce_sized
  mpi_reduce-folded sendbuf recvbuf c type op ranks r esz st xs ms more ok format summable known
        fits long q quiet room here all sized =
      let n = c * esz in
      let tag = coll_tag coll_reduce (next_seq st).coll_seq in
      let own : length (take n sendbuf) ≡ n = omega (arith, length-take n sendbuf) in
      let tail = drop n recvbuf in
      let (st', runs, dropped, same) =
        fold_loop-folded ar fmt f c n type op format summable known ms more
          (fmt.load (take n sendbuf)) tail tag (next_seq st) xs
          (format.length_load (take n sendbuf) own) sized q quiet room here in
      let count : pos_part st.size - 1 ≡ length ms = ap (λ z. pos_part z - 1) ok.size ∙ sym all in
      let seed : take n sendbuf ++ tail ≡ fmt.store (fmt.load (take n sendbuf)) ++ tail =
        ap (λ t. t ++ tail) (sym (format.store_load (take n sendbuf) own)) in
      let at_root : neqb_ℤ st.rank (pos r) ≡ false = rw ok.rank (ground arith) in
      (
        st',
        reduce_guards sendbuf recvbuf (pos c) type op ranks r esz st ok.ready ok.size ok.within
              ok.sized known (ground arith) (ground arith)
            ∙ pass _ _ at_root (
                pass (ltb_ℤ (pos c) (pos 0)) _ (ground arith) (
                  ap
                    (λ (k : ℕ).
                      fold_loop ar fmt k tag (take n sendbuf ++ tail) n c type op (next_seq st))
                    count
                  ∙ ap
                      (λ (b : List ℕ). fold_loop ar fmt (length ms) tag b n c type op (next_seq st))
                      seed
                  ∙ runs)),
        dropped,
        same,
      )

  -- A negative `count` at the root is not refused: `memcpy` gets its product with the element size as a
  -- 64-bit length.
  pub mpi_reduce_negative :
      (sendbuf recvbuf : List ℕ) (c : ℕ) (type op : ℤ) (ranks r esz : ℕ) (st : Mpi)
      → IsRoot st ranks r type esz
      → operation ar op ≡ some f
      → suc c * esz ≤ 2 ^ 31
      → mpi_reduce ar fmt sendbuf recvbuf (negsuc c) type op (pos r) mpi_comm_world st ≡ undefined
  unfolding reduce_sized
  mpi_reduce_negative sendbuf recvbuf c type op ranks r esz st ok known small =
      let at_root : neqb_ℤ st.rank (pos r) ≡ false = rw ok.rank (ground arith) in
      reduce_guards sendbuf recvbuf (negsuc c) type op ranks r esz st ok.ready ok.size ok.within
        ok.sized known (ground arith) (ground arith)
      ∙ pass _ _ at_root (enter (ltb_ℤ (negsuc c) (pos 0)) _ (ground arith) refl)
