-- ===== src/Mpi/Receive.antt =====
-- `recv_match` and `MPI_Recv` of src/mpi.c. The loop around `recvfrom` recurs on what the kernel will
-- answer; when that is used up the call blocks.
pub mod Match
pub mod Laws
pub mod Safe
pub mod Finish
pub mod Accept
pub mod Arrive
pub mod Exchange
mod Tests
use neoos_libneoos.Base.{
  ℕ, ◌+◌, ◌*◌, ◌^◌, ◌==◌, Bool, true, false, not, ◌&&◌, ◌||◌, Option, none, some, List, [], ◌∷◌,
  ◌++◌, if◌then◌else◌, ltb, leb, length, drop,
}
use neoos_libneoos.Base.Int.{ℤ, pos, ltb_ℤ, leb_ℤ, pos_part}
use neoos_libneoos.Mpi.Defs.{
  Header, Message, matches, any_source, neqb_ℤ, type_size, mpi_comm_world, mpi_success,
  mpi_err_comm, mpi_err_count, mpi_err_intern, mpi_err_other, mpi_err_rank, mpi_err_truncate,
  mpi_err_type,
}
use neoos_libneoos.Mpi.Wire.{header_size, message_of}
use neoos_libneoos.Mpi.Pending.{
  Pool, pending_take, pending_alloc, pending_release, pending_push, fill,
}
use neoos_libneoos.Mpi.State.{
  Arrival, failed, datagram, Mpi, Run, done, waiting, undefined, out_of_fuel,
}

-- EINTR
abbrev pub eintr : ℕ
eintr = 4

-- The result of `recv_match`: `*out`, or an error code.
pub data Received : Type 0 where
  got : Message → Received
  error : ℕ → Received

-- A message that is not what the receive asked for: into a free slot, or reported and dropped.
unfoldable pub keep_message : Message → Mpi → Option Mpi
keep_message m st = elim (pending_alloc st.pool) [
  | none ↦ some (record st { dropped = m.hdr ∷ st.dropped })
  | some (i, p) ↦ elim (pending_push i (fill i m p)) [
    | none ↦ none
    | some p' ↦ some (record st { pool = p' })
  ]
]

-- What one answer of `recvfrom` leads to.
pub data Verdict : Type 0 where
  again : Mpi → Verdict
  deliver : Message → Verdict
  give_up : Verdict
  lost_way : Verdict  -- a walk along the queue ran out of fuel

unfoldable pub judge : ℤ → ℤ → Arrival → Mpi → Verdict
judge source tag (failed e) st = if e == eintr then again st else give_up
judge source tag (datagram f) st =
    let m = message_of f in
    if ltb (length f) header_size
    then again st
    else if matches m.hdr source tag
    then deliver m
    else elim (keep_message m st) [ none ↦ lost_way | some st' ↦ again st' ]

-- The `for (;;)` of `recv_match`.
unfoldable pub recv_loop : ℤ → ℤ → List Arrival → Mpi → Run Received
recv_loop source tag [] st = waiting (record st { inbox = [] })
recv_loop source tag (a ∷ as') st = elim (judge source tag a st) [
  | again st' ↦ recv_loop source tag as' st'
  | deliver m ↦ done (got m) (record st { inbox = as' })
  | give_up ↦ done (error mpi_err_intern) (record st { inbox = as' })
  | lost_way ↦ out_of_fuel
]

-- `recv_match`
unfoldable pub recv_match : ℤ → ℤ → Mpi → Run Received
unfolding recv_loop
recv_match source tag st = elim (pending_take source tag st.pool) [
  | none ↦ out_of_fuel
  | some (none, p) ↦ recv_loop source tag st.inbox (record st { pool = p })
  | some (some i, p) ↦ done (got (p.slot i).msg) (record st { pool = pending_release i p })
]

-- `MPI_Status`
pub record Status : Type 0 where
  pub source : ℤ
  pub tag : ℤ
  pub error : ℕ
  pub count : ℕ

-- What `MPI_Recv` returns and stores: `buf` and `*status` are what these hold afterwards.
pub record Receipt : Type 0 where
  pub code : ℕ
  pub buf : List ℕ
  pub status : Option Status

abbrev pub status_of : Message → ℕ → Option Status
status_of m e =
    some (record { source = m.hdr.src; tag = m.hdr.tag; error = e; count = length m.body })

-- The end of `MPI_Recv`, from the message that `recv_match` found on. `status` is `none` if a message
-- leaves it alone; a caller that passed a null pointer ignores it.
unfoldable pub finish_recv : List ℕ → ℤ → ℕ → Received → Mpi → Run Receipt
finish_recv buf count esz (error rc) st = done (record { code = rc; buf = buf; status = none }) st
finish_recv buf count esz (got m) st =
    let bytes = length m.body in
    if leb (2 ^ 31) (pos_part count * esz)
    then undefined
    else if ltb (pos_part count * esz) bytes
    then done (record { code = mpi_err_truncate; buf = buf; status = status_of m mpi_err_truncate })
        st
    else done
        (record {
          code = mpi_success;
          buf = m.body ++ drop bytes buf;
          status = status_of m mpi_success;
        })
        st

abbrev pub fail_recv : ℕ → List ℕ → Mpi → Run Receipt
fail_recv rc buf st = done (record { code = rc; buf = buf; status = none }) st

-- `MPI_Recv`
unfoldable pub mpi_recv : List ℕ → ℤ → ℤ → ℤ → ℤ → ℤ → Mpi → Run Receipt
unfolding recv_match finish_recv type_size
mpi_recv buf count type source tag comm st =
    if neqb_ℤ comm mpi_comm_world
    then fail_recv mpi_err_comm buf st
    else if not st.ready
    then fail_recv mpi_err_other buf st
    else if neqb_ℤ source any_source && (ltb_ℤ source (pos 0) || leb_ℤ st.size source)
    then fail_recv mpi_err_rank buf st
    else if ltb_ℤ count (pos 0)
    then fail_recv mpi_err_count buf st
    else elim (type_size type) [
      | none ↦ fail_recv mpi_err_type buf st
      | some esz ↦ elim (recv_match source tag st) [
        | done r st' ↦ finish_recv buf count esz r st'
        | waiting st' ↦ waiting st'
        | undefined ↦ undefined
        | out_of_fuel ↦ out_of_fuel
      ]
    ]
