-- ===== src/Socket/Address/RoundTrip.antt =====
-- `inet_addr` reads back what `inet_ntoa_r` of src/socket.c writes.
use mathlib.Core.List.{append-nil}
use neoos_libneoos.Base.{
  sym, ◌∙◌, ap, ℕ, suc, ◌+◌, ◌*◌, ◌/◌, ◌%◌, ◌^◌, ◌<◌, ◌≡◌, refl, arith, true, false, some, List, [],
  ◌∷◌, ◌++◌, leb, Bool-cases, inl, inr,
}
use neoos_libneoos.Socket.Order.{htonl, ntohl, htonl-lt, byte_order_round_trip}
use neoos_libneoos.Socket.Address.{
  octet_loop, skip_dot, starts_digit, parts_loop, at_nul, inet_addr, octet_text, ntoa_loop,
  inet_ntoa_r,
}

octet_loop-stop :
    (rest : List ℕ) (v digits : ℕ)
    → starts_digit rest ≡ false
    → octet_loop rest v digits ≡ some (v, rest)
unfolding octet_loop starts_digit
octet_loop-stop [] v digits h = refl
octet_loop-stop (c ∷ s) v digits h = ground arith

octet_loop-digit :
    (d : ℕ) (s : List ℕ) (v digits : ℕ)
    → d < 10
    → digits < 3
    → v * 10 + d < 256
    → octet_loop ((b'0' + d) ∷ s) v digits ≡ octet_loop s (v * 10 + d) (digits + 1)
unfolding octet_loop
octet_loop-digit d s v digits h h₂ h₃ = ground arith

octet_loop-text :
    (o : ℕ) (rest : List ℕ)
    → o < 256
    → starts_digit rest ≡ false
    → octet_loop (octet_text o ++ rest) 0 0 ≡ some (o, rest)
unfolding octet_text
octet_loop-text o rest h stop = elim (Bool-cases (leb 100 o)) [
  | inl e ↦
      let e₂ : leb 10 o ≡ true = ground arith in
      rw (e, e₂)
        (octet_loop-digit (o / 100) ((b'0' + o / 10 % 10) ∷ (b'0' + o % 10) ∷ rest) 0 0
            (omega arith) (omega arith) (omega arith)
          ∙ two (0 * 10 + o / 100) 1 (omega arith) (omega arith)
          ∙ ap (λ n. some (n, rest)) (omega arith))
  | inr e ↦ elim (Bool-cases (leb 10 o)) [
    | inl e₂ ↦
        rw (e, e₂) (two 0 0 (omega arith) (ground arith) ∙ ap (λ n. some (n, rest)) (ground arith))
    | inr e₂ ↦
        rw (e, e₂) (one 0 0 (omega arith) (ground arith) ∙ ap (λ n. some (n, rest)) (ground arith))
  ]
]
  where
    one :
        (v digits : ℕ)
        → digits < 3
        → v * 10 + o % 10 < 256
        → octet_loop ((b'0' + o % 10) ∷ rest) v digits ≡ some (v * 10 + o % 10, rest)
    one v digits hd hv =
        octet_loop-digit (o % 10) rest v digits (omega arith) hd hv
        ∙ octet_loop-stop rest (v * 10 + o % 10) (digits + 1) stop

    two :
        (v digits : ℕ)
        → digits < 2
        → (v * 10 + o / 10 % 10) * 10 + o % 10 < 256
        → octet_loop ((b'0' + o / 10 % 10) ∷ (b'0' + o % 10) ∷ rest) v digits
          ≡ some ((v * 10 + o / 10 % 10) * 10 + o % 10, rest)
    two v digits hd hv =
        octet_loop-digit (o / 10 % 10) ((b'0' + o % 10) ∷ rest) v digits (omega arith) (omega arith)
          (omega arith)
        ∙ one (v * 10 + o / 10 % 10) (digits + 1) (omega arith) hv

starts_digit-text : (o : ℕ) (rest : List ℕ) → o < 256 → starts_digit (octet_text o ++ rest) ≡ true
unfolding octet_text starts_digit
starts_digit-text o rest h = ground arith

octet_dot :
    (k acc o : ℕ) (s : List ℕ)
    → o < 256
    → parts_loop (suc (suc k)) acc (octet_text o ++ b'.' ∷ s) ≡ parts_loop (suc k) (acc * 256 + o) s
unfolding parts_loop skip_dot starts_digit
octet_dot k acc o s h =
    rw (starts_digit-text o (b'.' ∷ s) h, octet_loop-text o (b'.' ∷ s) h refl) refl

octet_end : (acc o : ℕ) → o < 256 → parts_loop 1 acc (octet_text o) ≡ some (acc * 256 + o, [])
unfolding parts_loop skip_dot starts_digit
octet_end acc o h =
    let t : octet_text o ++ [] ≡ octet_text o = append-nil (octet_text o) in
    rw (sym t) (rw (starts_digit-text o [] h, octet_loop-text o [] h refl) refl)

four_octets : (h : ℕ) → h < 2 ^ 32 → parts_loop 4 0 (ntoa_loop 3 h) ≡ some (h, [])
unfolding ntoa_loop
four_octets h lt =
    octet_dot 2 0 (h / 2 ^ 24 % 256) (ntoa_loop 2 h) (omega arith)
    ∙ octet_dot 1 (0 * 256 + h / 2 ^ 24 % 256) (h / 2 ^ 16 % 256) (ntoa_loop 1 h) (omega arith)
    ∙ octet_dot 0 ((0 * 256 + h / 2 ^ 24 % 256) * 256 + h / 2 ^ 16 % 256) (h / 2 ^ 8 % 256)
        (ntoa_loop 0 h) (omega arith)
    ∙ octet_end (((0 * 256 + h / 2 ^ 24 % 256) * 256 + h / 2 ^ 16 % 256) * 256 + h / 2 ^ 8 % 256)
        (h % 256) (omega arith)
    ∙ ap (λ n. some (n, [])) (omega arith)

-- For every 32-bit address in network order, the dotted text that `inet_ntoa_r` writes is read back by
-- `inet_addr` as that address.
pub inet_addr-inet_ntoa_r : (a : ℕ) → a < 2 ^ 32 → inet_addr (inet_ntoa_r a) ≡ a
unfolding inet_addr inet_ntoa_r at_nul ntohl
inet_addr-inet_ntoa_r a h =
    rw (inet_addr, four_octets (htonl a) (htonl-lt a))
      ((byte_order_round_trip 0 a (omega arith) h).1)
