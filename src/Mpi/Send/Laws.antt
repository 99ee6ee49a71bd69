-- ===== src/Mpi/Send/Laws.antt =====
-- What `MPI_Send` of src/mpi.c does on each branch.
use neoos_libneoos.Base.{
  ◌∙◌, sym, if◌then◌else◌, ℕ, ◌*◌, ◌^◌, ◌≤◌, ◌≡◌, ◌≢◌, inl, inr, refl, Bool, true, false, not, ◌||◌,
  Option, none, some, List, ◌∷◌, arith, take, leb, ltb, Bool-cases,
}
use neoos_libneoos.Base.Int.{ℤ, pos, ltb_ℤ, leb_ℤ, pos_part, IsInt}
use neoos_libneoos.Mpi.Defs.{
  neqb_ℤ, mpi_err_type, type_size, mpi_comm_world, mpi_success, mpi_max_message,
}
use neoos_libneoos.Mpi.State.{Mpi, Packet, Run, done, undefined}
use neoos_libneoos.Mpi.Send.{send_raw, mpi_send, send_sized, packet_for, tag_refused}
use neoos_libneoos.Mpi.Send.Tags.{tag_refused-negative}

-- What a call of `MPI_Send` that may go out has been checked for.
pub record IsSendable (st : Mpi) (count type dest tag comm : ℤ) (esz : ℕ) : Type 0 where
  pub world : comm ≡ mpi_comm_world
  pub ready : st.ready ≡ true
  pub dest_low : ltb_ℤ dest (pos 0) ≡ false
  pub dest_high : ltb_ℤ dest st.size ≡ true
  pub count_low : ltb_ℤ count (pos 0) ≡ false
  pub tag_low : ltb_ℤ tag (pos 0) ≡ false
  pub sized : type_size type ≡ some esz

-- The packet of a message, and the state in which it has gone out.
abbrev pub packet_of : List ℕ → ℤ → ℤ → ℤ → ℤ → ℕ → Mpi → Packet
packet_of buf count type dest tag esz st =
    packet_for st dest tag type count (take (pos_part count * esz) buf)

abbrev pub sent_state : Packet → Mpi → Mpi
sent_state p st = record st { sent = p ∷ st.sent }

-- The three ways in which `MPI_Send` ends.
pub data Sent (buf : List ℕ) (count type dest tag comm : ℤ) (st : Mpi) (r : Run ℕ) : Type 0 where
  delivered :
      (esz : ℕ)
      → IsSendable st count type dest tag comm esz
      → pos_part count * esz ≤ mpi_max_message
      → r ≡ done mpi_success (sent_state (packet_of buf count type dest tag esz st) st)
      → Sent buf count type dest tag comm st r
  refused : (rc : ℕ) → rc ≢ mpi_success → r ≡ done rc st → Sent buf count type dest tag comm st r
  overflowed :
      (esz : ℕ)
      → IsSendable st count type dest tag comm esz
      → 2 ^ 31 ≤ pos_part count * esz
      → r ≡ undefined
      → Sent buf count type dest tag comm st r

send_sized-Sent :
    (buf : List ℕ) (count type dest tag comm : ℤ) (st : Mpi) (esz : ℕ)
    → IsSendable st count type dest tag comm esz
    → Sent buf count type dest tag comm st (send_sized buf count type dest tag esz st)
unfolding send_sized
send_sized-Sent buf count type dest tag comm st esz ok =
    let bytes = pos_part count * esz in
    elim (Bool-cases (leb (2 ^ 31) bytes)) [
      | inl o ↦ rw o (overflowed esz ok (ground arith) refl)
      | inr o ↦ rw o (elim (Bool-cases (ltb mpi_max_message bytes)) [
        | inl big ↦ rw big (refused _ (ground arith) refl)
        | inr fits ↦
            rw fits
              (elim (Bool-cases
                (st.takes st.sent (packet_for st dest tag type count (take bytes buf)))) [
                  | inl y ↦ rw y (delivered esz ok (ground arith) refl)
                  | inr n ↦ rw n (refused _ (ground arith) refl)
                ])
      ])
    ]

-- `MPI_Send` either queues exactly one datagram and returns MPI_SUCCESS, or returns an error and
-- sends nothing and changes nothing, or overflows in `count * esz`.
pub mpi_send-Sent :
    (buf : List ℕ) (count type dest tag comm : ℤ) (st : Mpi)
    → IsInt tag
    → Sent buf count type dest tag comm st (mpi_send buf count type dest tag comm st)
unfolding mpi_send
mpi_send-Sent buf count type dest tag comm st it =
    if_split (neqb_ℤ comm mpi_comm_world) (λ h. refused _ (ground arith) refl)
      λ world.
        if_split (not st.ready) (λ h. refused _ (ground arith) refl)
          λ ready.
            if_split (ltb_ℤ dest (pos 0) || leb_ℤ st.size dest) (λ h. refused _ (ground arith) refl)
              λ dests.
                if_split (ltb_ℤ count (pos 0)) (λ h. refused _ (ground arith) refl)
                  λ counts.
                    if_split (tag_refused tag) (λ h. refused _ (ground arith) refl)
                      λ tags. sized (type_size type) λ esz h.
                        send_sized-Sent buf count type dest tag comm st esz (record {
                          world = ground arith;
                          ready = ground arith;
                          dest_low = ground arith;
                          dest_high = ground arith;
                          count_low = counts;
                          tag_low = sym (tag_refused-negative tag it) ∙ tags;
                          sized = h;
                        })
  where
    if_split :
        (b : Bool) {x y : Run ℕ}
        → (b ≡ true → Sent buf count type dest tag comm st x)
        → (b ≡ false → Sent buf count type dest tag comm st y)
        → Sent buf count type dest tag comm st (if b then x else y)
    if_split true f g = f refl
    if_split false f g = g refl

    sized :
        (o : Option ℕ) {k : ℕ → Run ℕ}
        → ((esz : ℕ) → o ≡ some esz → Sent buf count type dest tag comm st (k esz))
        → Sent buf count type dest tag comm st
            (elim o [ none ↦ done mpi_err_type st | some esz ↦ k esz ])
    sized none f = refused _ (ground arith) refl
    sized (some esz) f = f esz refl

-- A send that may go out, and that the kernel takes, goes out.
pub mpi_send-delivers :
    (buf : List ℕ) (count type dest tag comm : ℤ) (esz : ℕ) (st : Mpi)
    → IsSendable st count type dest tag comm esz
    → tag_refused tag ≡ false
    → pos_part count * esz ≤ mpi_max_message
    → st.takes st.sent (packet_of buf count type dest tag esz st) ≡ true
    → mpi_send buf count type dest tag comm st
      ≡ done mpi_success (sent_state (packet_of buf count type dest tag esz st) st)
unfolding mpi_send send_sized send_raw
mpi_send-delivers buf count type dest tag comm esz st ok t fits taken = ground arith
