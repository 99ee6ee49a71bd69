-- ===== src/Mpi/Receive/Finish.antt =====
-- The ways in which `MPI_Recv` of src/mpi.c ends.
use neoos_libneoos.Base.{
  ◌⊎◌, ◌&&◌, ◌||◌, not, ltb-false, length-drop, length-append, ℕ, ◌*◌, ◌^◌, ◌≤◌, ◌<◌, ◌≡◌, ◌≢◌,
  refl, Bool, true, false, Option, none, some, List, ◌++◌, arith, length, drop, ltb, leb,
  Bool-cases, inl, inr, if◌then◌else◌,
}
use neoos_libneoos.Base.Int.{leb_ℤ, pos, ltb_ℤ, ℤ, pos_part}
use neoos_libneoos.Mpi.Defs.{
  mpi_err_count, mpi_err_rank, any_source, mpi_err_other, mpi_err_comm, mpi_err_intern,
  mpi_comm_world, neqb_ℤ, mpi_err_type, Message, type_size, mpi_success, mpi_err_truncate,
}
use neoos_libneoos.Mpi.Pending.Chain.{Cells, IsQueue}
use neoos_libneoos.Mpi.State.{Mpi, Run, done, waiting, undefined, out_of_fuel}
use neoos_libneoos.Mpi.Receive.{
  error, fail_recv, got, Receipt, status_of, recv_match, finish_recv, mpi_recv,
}
use neoos_libneoos.Mpi.Receive.Safe.{hands_over, Safe, recv_match-Safe}

-- What a call of `MPI_Recv` that may look for a message has been checked for.
pub record IsReceivable (st : Mpi) (count type source comm : ℤ) (esz : ℕ) : Type 0 where
  pub world : comm ≡ mpi_comm_world
  pub ready : st.ready ≡ true
  pub range :
      (source ≡ any_source) ⊎ ((ltb_ℤ source (pos 0) ≡ false) × (ltb_ℤ source st.size ≡ true))
  pub count_low : ltb_ℤ count (pos 0) ≡ false
  pub sized : type_size type ≡ some esz

-- Why a call is refused, and with which code.
pub data Refusal (st : Mpi) (count type source comm : ℤ) : ℕ → Type 0 where
  other_comm : comm ≢ mpi_comm_world → Refusal st count type source comm mpi_err_comm
  not_ready : st.ready ≡ false → Refusal st count type source comm mpi_err_other
  no_rank :
      source ≢ any_source
      → (ltb_ℤ source (pos 0) ≡ true) ⊎ (ltb_ℤ source st.size ≡ false)
      → Refusal st count type source comm mpi_err_rank
  negative : ltb_ℤ count (pos 0) ≡ true → Refusal st count type source comm mpi_err_count
  no_type : type_size type ≡ none → Refusal st count type source comm mpi_err_type

module _ (buf : List ℕ) (count type source tag comm : ℤ) (st : Mpi) where
  -- How a call ends: refused for one of the five reasons, with the state as it was; or, when none of these
  -- holds, with what `recv_match` does for the same source and tag. A message of which all bytes fit is
  -- copied to the front of the buffer, which keeps its length; one that does not fit is reported, and the
  -- buffer is left alone, as it is by an error.
  pub data RecvEnd (r : Run Receipt) : Type 0 where
    stored :
        (m : Message) (esz : ℕ) (st' : Mpi)
        → IsReceivable st count type source comm esz
        → recv_match source tag st ≡ done (got m) st'
        → length m.body ≤ pos_part count * esz
        → r
          ≡ done
              (record {
                code = mpi_success;
                buf = m.body ++ drop (length m.body) buf;
                status = status_of m mpi_success;
              })
              st'
        → (pos_part count * esz ≤ length buf
            → length (m.body ++ drop (length m.body) buf) ≡ length buf)
        → RecvEnd r
    truncated :
        (m : Message) (esz : ℕ) (st' : Mpi)
        → IsReceivable st count type source comm esz
        → recv_match source tag st ≡ done (got m) st'
        → pos_part count * esz < length m.body
        → r
          ≡ done
              (record { code = mpi_err_truncate; buf = buf; status = status_of m mpi_err_truncate })
              st'
        → RecvEnd r
    refused :
        (rc : ℕ)
        → Refusal st count type source comm rc
        → r ≡ done (record { code = rc; buf = buf; status = none }) st
        → RecvEnd r
    fails :
        (esz : ℕ) (st' : Mpi)
        → IsReceivable st count type source comm esz
        → recv_match source tag st ≡ done (error mpi_err_intern) st'
        → r ≡ done (record { code = mpi_err_intern; buf = buf; status = none }) st'
        → RecvEnd r
    blocks :
        (esz : ℕ) (st' : Mpi)
        → IsReceivable st count type source comm esz
        → recv_match source tag st ≡ waiting st'
        → r ≡ waiting st'
        → RecvEnd r
    overflows :
        (m : Message) (esz : ℕ) (st' : Mpi)
        → IsReceivable st count type source comm esz
        → recv_match source tag st ≡ done (got m) st'
        → 2 ^ 31 ≤ pos_part count * esz
        → r ≡ undefined
        → RecvEnd r

  stored-length :
      (m : Message) (esz : ℕ)
      → length m.body ≤ pos_part count * esz
      → pos_part count * esz ≤ length buf
      → length (m.body ++ drop (length m.body) buf) ≡ length buf
  stored-length m esz fits room =
      omega
        (arith, length-append m.body (drop (length m.body) buf), length-drop (length m.body) buf)

  finish-RecvEnd :
      (esz : ℕ) (m : Message) (st' : Mpi)
      → IsReceivable st count type source comm esz
      → recv_match source tag st ≡ done (got m) st'
      → RecvEnd (finish_recv buf count esz (got m) st')
  unfolding finish_recv
  finish-RecvEnd esz m st' ok run = elim (Bool-cases (leb (2 ^ 31) (pos_part count * esz))) [
    | inl big ↦ rw big (overflows m esz st' ok run (ground (arith, big)) refl)
    | inr small ↦ rw small (elim (Bool-cases (ltb (pos_part count * esz) (length m.body))) [
      | inl cut ↦ rw cut (truncated m esz st' ok run (ground (arith, cut)) refl)
      | inr fits ↦ rw fits (
          let within : length m.body ≤ pos_part count * esz = ltb-false _ _ fits in
          stored m esz st' ok run within refl (stored-length m esz within))
    ])
  ]

  matched-RecvEnd :
      (esz : ℕ)
      → IsReceivable st count type source comm esz
      → Safe (recv_match source tag st)
      → RecvEnd (elim (recv_match source tag st) [
        | done r st' ↦ finish_recv buf count esz r st'
        | waiting st' ↦ waiting st'
        | undefined ↦ undefined
        | out_of_fuel ↦ out_of_fuel
      ])
  matched-RecvEnd esz ok (hands_over m st' xs run q) = rw run (finish-RecvEnd esz m st' ok run)
  matched-RecvEnd esz ok (Safe.fails st' xs run q) =
      rw run (RecvEnd.fails esz st' ok run (unfold finish_recv in refl))
  matched-RecvEnd esz ok (Safe.blocks st' xs run q) = rw run (RecvEnd.blocks esz st' ok run refl)

  if_split :
      (b : Bool) {x y : Run Receipt}
      → (b ≡ true → RecvEnd x)
      → (b ≡ false → RecvEnd y)
      → RecvEnd (if b then x else y)
  if_split true f g = f refl
  if_split false f g = g refl

  -- On a well-formed queue `MPI_Recv` is refused, with the code of the reason and the state and the buffer as
  -- they were, for another communicator, before MPI_Init, for a source that is neither MPI_ANY_SOURCE nor a
  -- rank, for a negative count, or for an unknown type. Otherwise, and only when none of these holds, it
  -- ends with the message that `recv_match` takes, with its error, blocks with it, or overflows in
  -- `count * esz`.
  pub mpi_recv-RecvEnd :
      (xs : Cells) → IsQueue st.pool xs → RecvEnd (mpi_recv buf count type source tag comm st)
  unfolding mpi_recv
  mpi_recv-RecvEnd xs q =
      if_split (neqb_ℤ comm mpi_comm_world) (λ h. refused _ (other_comm (other_world h)) refl)
        λ world.
          if_split (not st.ready) (λ h. refused _ (not_ready (ground (arith, h))) refl)
            λ ready.
              if_split (neqb_ℤ source any_source && (ltb_ℤ source (pos 0) || leb_ℤ st.size source))
                (λ h. let (named, out) = out_of_range h in refused _ (no_rank named out) refl)
                λ range.
                  if_split (ltb_ℤ count (pos 0)) (λ h. refused _ (negative h) refl)
                    λ low. sized (type_size type) refl λ esz e. record {
                      world = ground (arith, world);
                      ready = ground (arith, ready);
                      range = in_range range;
                      count_low = low;
                      sized = e;
                    }
    where
      other_world : neqb_ℤ comm mpi_comm_world ≡ true → comm ≢ mpi_comm_world
      other_world h = ground (arith, h)

      out_of_range :
          (neqb_ℤ source any_source && (ltb_ℤ source (pos 0) || leb_ℤ st.size source)) ≡ true
          → (source ≢ any_source) × ((ltb_ℤ source (pos 0) ≡ true) ⊎ (ltb_ℤ source st.size ≡ false))
      out_of_range h = elim (Bool-cases (ltb_ℤ source (pos 0))) [
        | inl below ↦ (ground (arith, h), inl below)
        | inr above ↦ (ground (arith, h), inr (ground (arith, h, above)))
      ]

      in_range :
          (neqb_ℤ source any_source && (ltb_ℤ source (pos 0) || leb_ℤ st.size source)) ≡ false
          → (source ≡ any_source) ⊎ ((ltb_ℤ source (pos 0) ≡ false) × (ltb_ℤ source st.size ≡ true))
      in_range h = elim (Bool-cases (neqb_ℤ source any_source)) [
        | inl named ↦ inr (ground (arith, h, named), ground (arith, h, named))
        | inr any ↦ inl (ground (arith, any))
      ]

      sized :
          (o : Option ℕ)
          → type_size type ≡ o
          → ((esz : ℕ) → type_size type ≡ some esz → IsReceivable st count type source comm esz)
          → RecvEnd (elim o [
            | none ↦ fail_recv mpi_err_type buf st
            | some esz ↦ elim (recv_match source tag st) [
              | done r st' ↦ finish_recv buf count esz r st'
              | waiting st' ↦ waiting st'
              | undefined ↦ undefined
              | out_of_fuel ↦ out_of_fuel
            ]
          ])
      sized none e ok = refused _ (no_type e) refl
      sized (some esz) e ok = matched-RecvEnd esz (ok esz e) (recv_match-Safe source tag st xs q)
