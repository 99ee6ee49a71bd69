-- ===== src/Mpi/Collective.antt =====
-- `MPI_Initialized`, `MPI_Finalize`, `MPI_Comm_size`, `MPI_Comm_rank`, `MPI_Barrier` and `MPI_Bcast`
-- of src/mpi.c.
pub mod Broadcast
pub mod Gather
pub mod Ranks
pub mod Tokens
pub mod Entry
pub mod Barrier
pub mod Open
pub mod Progress
mod Tests
use neoos_libneoos.Base.{
  ℕ, zero, suc, ◌+◌, ◌-◌, ◌%◌, ◌^◌, ◌==◌, Bool, true, false, not, ◌||◌, Option, none, some, List,
  [], ◌∷◌, if◌then◌else◌,
}
use neoos_libneoos.Base.Int.{ℤ, pos, minus, eqb_ℤ, ltb_ℤ, leb_ℤ, pos_part}
use neoos_libneoos.Mpi.Defs.{
  neqb_ℤ, mpi_comm_world, mpi_success, mpi_err_comm, mpi_err_other, mpi_err_rank, mpi_byte,
  any_source,
}
use neoos_libneoos.Mpi.State.{Mpi, Run, done, waiting, undefined, out_of_fuel, ◌>>=◌, pure}
use neoos_libneoos.Mpi.Send.{coll_tag, coll_barrier_in, coll_barrier_out, coll_bcast, mpi_send}
use neoos_libneoos.Mpi.Receive.{mpi_recv, Receipt}

-- `MPI_Initialized`: the code, and what is stored through `flag` if it is not null.
unfoldable pub mpi_initialized : Mpi → ℕ × Bool
mpi_initialized st = (mpi_success, st.ready)

-- `MPI_Finalize`; the second result is the descriptor that it closes.
unfoldable pub mpi_finalize : Mpi → ℕ × Option ℤ × Mpi
mpi_finalize st =
    if not st.ready
    then (mpi_err_other, none, st)
    else (mpi_success, some st.sock, record st { sock = minus 1; ready = false })

-- The checks of `MPI_Comm_size` and `MPI_Comm_rank`, and the value they store.
abbrev pub query : ℤ → Mpi → ℤ → ℕ × Option ℤ
query comm st value =
    if neqb_ℤ comm mpi_comm_world
    then (mpi_err_comm, none)
    else if not st.ready
    then (mpi_err_other, none)
    else (mpi_success, some value)

-- `MPI_Comm_size`
unfoldable pub mpi_comm_size : ℤ → Mpi → ℕ × Option ℤ
mpi_comm_size comm st = query comm st st.size

-- `MPI_Comm_rank`
unfoldable pub mpi_comm_rank : ℤ → Mpi → ℕ × Option ℤ
mpi_comm_rank comm st = query comm st st.rank

-- `int rc = …; if (rc != MPI_SUCCESS) { return rc; }`
infixl 5 ◌>>>◌
abbrev pub ◌>>>◌ : (Mpi → Run ℕ) → (Mpi → Run ℕ) → Mpi → Run ℕ
◌>>>◌ m k = m >>= λ rc. if rc == mpi_success then k else pure rc

-- `coll_seq++`
abbrev pub next_seq : Mpi → Mpi
next_seq st = record st { coll_seq = (st.coll_seq + 1) % 2 ^ 32 }

-- The loop of rank 0 in `MPI_Barrier` that receives `k` more tokens; it gives the code and the token.
unfoldable pub gather_loop : ℕ → ℤ → ℤ → List ℕ → Mpi → Run (ℕ × List ℕ)
gather_loop zero tag comm token = pure (mpi_success, token)
gather_loop (suc k) tag comm token =
    mpi_recv token (pos 1) mpi_byte any_source tag comm >>= λ (r : Receipt).
    let rest = gather_loop k tag comm r.buf in
    if r.code == mpi_success then rest else pure (r.code, r.buf)

-- The loop of rank 0 that releases `k` more ranks, from rank `i` on.
unfoldable pub release_loop : ℕ → ℕ → ℤ → ℤ → List ℕ → Mpi → Run ℕ
release_loop zero i tag comm token = pure mpi_success
release_loop (suc k) i tag comm token =
    mpi_send token (pos 1) mpi_byte (pos i) tag comm >>> release_loop k (i + 1) tag comm token

-- What rank 0 does in `MPI_Barrier`, with `others` other ranks.
unfoldable pub barrier_root : ℕ → ℤ → ℤ → ℤ → Mpi → Run ℕ
unfolding gather_loop release_loop
barrier_root others tag_in tag_out comm =
    gather_loop others tag_in comm (0 ∷ []) >>= λ (r : ℕ × List ℕ).
    if r.0 == mpi_success then release_loop others 1 tag_out comm r.1 else pure r.0

-- What the other ranks do.
unfoldable pub barrier_other : ℤ → ℤ → ℤ → Mpi → Run ℕ
barrier_other tag_in tag_out comm =
    mpi_send (0 ∷ []) (pos 1) mpi_byte (pos 0) tag_in comm
    >>> (mpi_recv (0 ∷ []) (pos 1) mpi_byte (pos 0) tag_out comm >>= λ (r : Receipt). pure r.code)

-- `MPI_Barrier`
unfoldable pub mpi_barrier : ℤ → Mpi → Run ℕ
unfolding barrier_root barrier_other
mpi_barrier comm st₀ =
    if neqb_ℤ comm mpi_comm_world
    then done mpi_err_comm st₀
    else if not st₀.ready
    then done mpi_err_other st₀
    else if eqb_ℤ st₀.size (pos 1)
    then done mpi_success st₀
    else let st = next_seq st₀ in
      let tag_in = coll_tag coll_barrier_in st.coll_seq in
      let tag_out = coll_tag coll_barrier_out st.coll_seq in
      if eqb_ℤ st.rank (pos 0)
      then barrier_root (pos_part st.size - 1) tag_in tag_out comm st
      else barrier_other tag_in tag_out comm st

-- The loop of the root in `MPI_Bcast`: `k` ranks are left, from rank `i` on.
unfoldable pub bcast_loop : ℕ → ℕ → List ℕ → ℤ → ℤ → ℤ → ℤ → ℤ → Mpi → Run ℕ
bcast_loop zero i buf count type root tag comm = pure mpi_success
bcast_loop (suc k) i buf count type root tag comm =
    let rest = bcast_loop k (i + 1) buf count type root tag comm in
    if eqb_ℤ (pos i) root then rest else mpi_send buf count type (pos i) tag comm >>> rest

-- `MPI_Bcast`: the code, and the buffer afterwards.
unfoldable pub mpi_bcast : List ℕ → ℤ → ℤ → ℤ → ℤ → Mpi → Run (ℕ × List ℕ)
unfolding bcast_loop
mpi_bcast buf count type root comm st₀ =
    if neqb_ℤ comm mpi_comm_world
    then done (mpi_err_comm, buf) st₀
    else if not st₀.ready
    then done (mpi_err_other, buf) st₀
    else if ltb_ℤ root (pos 0) || leb_ℤ st₀.size root
    then done (mpi_err_rank, buf) st₀
    else let st = next_seq st₀ in
      let tag = coll_tag coll_bcast st.coll_seq in
      if eqb_ℤ st.size (pos 1)
      then done (mpi_success, buf) st
      else if eqb_ℤ st.rank root
      then (bcast_loop (pos_part st.size) 0 buf count type root tag comm >>= λ rc. pure (rc, buf))
          st
      else (mpi_recv buf count type root tag comm >>= λ (r : Receipt). pure (r.code, r.buf)) st
