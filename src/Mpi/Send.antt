-- ===== src/Mpi/Send.antt =====
-- Tags, `send_raw` and `MPI_Send` of src/mpi.c.
pub mod Tags
pub mod Laws
use neoos_libneoos.Base.{
  ℕ, ◌+◌, ◌*◌, ◌/◌, ◌%◌, ◌^◌, ◌==◌, Bool, true, false, not, ◌&&◌, ◌||◌, Option, none, some, List,
  [], ◌∷◌, if◌then◌else◌, ltb, leb, take,
}
use neoos_libneoos.Base.Int.{ℤ, pos, signed32, ltb_ℤ, leb_ℤ, pos_part}
use neoos_libneoos.Mpi.Defs.{
  Header, mpi_comm_world, mpi_success, mpi_err_comm, mpi_err_count, mpi_err_intern, mpi_err_other,
  mpi_err_rank, mpi_err_tag, mpi_err_type, mpi_max_message, mpi_tag_ub, neqb_ℤ, type_size,
}
use neoos_libneoos.Mpi.Wire.{make_frame}
use neoos_libneoos.Mpi.State.{Mpi, Packet, Run, done, undefined, addr_for_rank}

-- `coll_tag`, for a base below 64: the three parts share no bit, so `|` adds them.
unfoldable pub coll_tag : ℕ → ℕ → ℤ
coll_tag base seq = signed32 ((2 ^ 30 + base * 2 ^ 24 + seq % 2 ^ 24) % 2 ^ 32)

abbrev pub coll_barrier_in : ℕ
coll_barrier_in = 1

abbrev pub coll_barrier_out : ℕ
coll_barrier_out = 2

abbrev pub coll_bcast : ℕ
coll_bcast = 3

abbrev pub coll_reduce : ℕ
coll_reduce = 4

-- The condition on the tag in `MPI_Send`; `tag & 0x40000000` is bit 30 of a tag that is not negative.
unfoldable pub tag_refused : ℤ → Bool
tag_refused tag =
    ltb_ℤ tag (pos 0) || (ltb_ℤ (pos mpi_tag_ub) tag && (pos_part tag / 2 ^ 30 % 2 == 0))

abbrev pub packet_for : Mpi → ℤ → ℤ → ℤ → ℤ → List ℕ → Packet
packet_for st dest tag type count body = record {
  to = addr_for_rank dest;
  frame = make_frame (record { src = st.rank; tag = tag; count = count; type = type }) body;
}

-- `send_raw`, with the `bytes` bytes of the buffer as `body`.
unfoldable pub send_raw : ℤ → ℤ → ℤ → ℤ → List ℕ → Mpi → Run ℕ
send_raw dest tag type count body st =
    let p = packet_for st dest tag type count body in
    if st.takes st.sent p
    then done mpi_success (record st { sent = p ∷ st.sent })
    else done mpi_err_intern st

-- The end of `MPI_Send`, from `int bytes = count * esz` on.
unfoldable pub send_sized : List ℕ → ℤ → ℤ → ℤ → ℤ → ℕ → Mpi → Run ℕ
unfolding send_raw
send_sized buf count type dest tag esz st =
    let bytes = pos_part count * esz in
    if leb (2 ^ 31) bytes
    then undefined
    else if ltb mpi_max_message bytes
    then done mpi_err_count st
    else send_raw dest tag type count (take bytes buf) st

-- `MPI_Send`
unfoldable pub mpi_send : List ℕ → ℤ → ℤ → ℤ → ℤ → ℤ → Mpi → Run ℕ
unfolding send_sized tag_refused type_size
mpi_send buf count type dest tag comm st =
    if neqb_ℤ comm mpi_comm_world
    then done mpi_err_comm st
    else if not st.ready
    then done mpi_err_other st
    else if ltb_ℤ dest (pos 0) || leb_ℤ st.size dest
    then done mpi_err_rank st
    else if ltb_ℤ count (pos 0)
    then done mpi_err_count st
    else if tag_refused tag
    then done mpi_err_tag st
    else elim (type_size type) [
      | none ↦ done mpi_err_type st
      | some esz ↦ send_sized buf count type dest tag esz st
    ]
