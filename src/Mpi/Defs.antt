-- ===== src/Mpi/Defs.antt =====
-- Constants and types of include/mpi.h and of the head of src/mpi.c. An `int` argument of the
-- program is a ℤ; a byte is a number below 256.
use neoos_libneoos.Base.{ℕ, Bool, true, false, not, ◌&&◌, Option, none, some, List, if◌then◌else◌}
use neoos_libneoos.Base.Int.{ℤ, pos, minus, eqb_ℤ}

abbrev pub mpi_comm_world : ℤ
mpi_comm_world = pos 0

abbrev pub mpi_success : ℕ
mpi_success = 0

abbrev pub mpi_err_count : ℕ
mpi_err_count = 2

abbrev pub mpi_err_type : ℕ
mpi_err_type = 3

abbrev pub mpi_err_tag : ℕ
mpi_err_tag = 4

abbrev pub mpi_err_comm : ℕ
mpi_err_comm = 5

abbrev pub mpi_err_rank : ℕ
mpi_err_rank = 6

abbrev pub mpi_err_op : ℕ
mpi_err_op = 9

abbrev pub mpi_err_truncate : ℕ
mpi_err_truncate = 14

abbrev pub mpi_err_other : ℕ
mpi_err_other = 15

abbrev pub mpi_err_intern : ℕ
mpi_err_intern = 16

-- MPI_ANY_SOURCE and MPI_ANY_TAG
abbrev pub any_source : ℤ
any_source = minus 1

abbrev pub any_tag : ℤ
any_tag = minus 1

abbrev pub mpi_byte : ℤ
mpi_byte = pos 0

abbrev pub mpi_char : ℤ
mpi_char = pos 1

abbrev pub mpi_int : ℤ
mpi_int = pos 2

abbrev pub mpi_long : ℤ
mpi_long = pos 3

abbrev pub mpi_double : ℤ
mpi_double = pos 4

abbrev pub mpi_sum : ℤ
mpi_sum = pos 0

abbrev pub mpi_prod : ℤ
mpi_prod = pos 1

abbrev pub mpi_max : ℤ
mpi_max = pos 2

abbrev pub mpi_min : ℤ
mpi_min = pos 3

abbrev pub mpi_max_message : ℕ
mpi_max_message = 8192

abbrev pub mpi_max_ranks : ℕ
mpi_max_ranks = 16

abbrev pub mpi_port_base : ℕ
mpi_port_base = 20000

abbrev pub mpi_tag_ub : ℕ
mpi_tag_ub = 0x3FFFFFFF

abbrev pub tag_hello : ℤ
tag_hello = pos 0x7F000005

abbrev pub tag_go : ℤ
tag_go = pos 0x7F000006

-- `type_size`; `none` is its -1.
unfoldable pub type_size : ℤ → Option ℕ
type_size t =
    if eqb_ℤ t mpi_byte
    then some 1
    else if eqb_ℤ t mpi_char
    then some 1
    else if eqb_ℤ t mpi_int
    then some 4
    else if eqb_ℤ t mpi_long
    then some 8
    else if eqb_ℤ t mpi_double
    then some 8
    else none

-- `MPI_Type_size`: the code, and what is stored through `size` if it is not null.
unfoldable pub mpi_type_size : ℤ → ℕ × Option ℕ
unfolding type_size
mpi_type_size type = elim (type_size type) [
  | none ↦ (mpi_err_type, none)
  | some n ↦ (mpi_success, some n)
]

-- `struct mpi_header`
pub record Header : Type 0 where
  pub src : ℤ
  pub tag : ℤ
  pub count : ℤ
  pub type : ℤ

abbrev pub no_header : Header
no_header = record { src = pos 0; tag = pos 0; count = pos 0; type = pos 0 }

-- What a message is outside its frame: `hdr`, and the first `bytes` bytes of `data`.
pub record Message : Type 0 where
  pub hdr : Header
  pub body : List ℕ

-- `a != b`
abbrev pub neqb_ℤ : ℤ → ℤ → Bool
neqb_ℤ a b = not (eqb_ℤ a b)

-- `matches`
unfoldable pub matches : Header → ℤ → ℤ → Bool
matches h source tag =
    if neqb_ℤ source any_source && neqb_ℤ h.src source
    then false
    else if neqb_ℤ tag any_tag && neqb_ℤ h.tag tag
    then false
    else true
