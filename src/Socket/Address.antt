-- ===== src/Socket/Address.antt =====
-- `inet_addr` and `inet_ntoa_r` of src/socket.c. A C string is the list of its bytes before the NUL.
pub mod RoundTrip
use neoos_libneoos.Base.{
  true, false, ℕ, zero, suc, ◌+◌, ◌-◌, ◌*◌, ◌/◌, ◌%◌, ◌^◌, ◌==◌, Bool, ◌&&◌, ◌||◌, not, Option,
  none, some, List, [], ◌∷◌, ◌++◌, if◌then◌else◌, ltb, leb,
}
use neoos_libneoos.Socket.Order.{htonl, ntohl}

-- `*s >= '0' && *s <= '9'`, also for the bytes that are negative as a `char`.
abbrev pub is_digit : ℕ → Bool
is_digit c = leb b'0' c && leb c b'9'

-- The inner loop of `inet_addr`, with `v` and `digits`: the number and where `s` stands behind it.
-- `none`: it returns 0xFFFFFFFF.
unfoldable pub octet_loop : List ℕ → ℕ → ℕ → Option (ℕ × List ℕ)
octet_loop [] v digits = some (v, [])
octet_loop (c ∷ s) v digits =
    let w = v * 10 + (c - b'0') in
    let rest = octet_loop s w (digits + 1) in
    if is_digit c then if ltb 3 (digits + 1) || ltb 255 w then none else rest else some (v, c ∷ s)

-- `if (*s != '.') return; s++`, where it applies.
unfoldable pub skip_dot : ℕ → List ℕ → Option (List ℕ)
skip_dot zero s = some s
skip_dot (suc k) [] = none
skip_dot (suc k) (c ∷ s) = if c == b'.' then some s else none

unfoldable pub starts_digit : List ℕ → Bool
starts_digit [] = false
starts_digit (c ∷ s) = is_digit c

-- The outer loop of `inet_addr`: `k` parts are left, and `acc` holds those before, shifted together.
unfoldable pub parts_loop : ℕ → ℕ → List ℕ → Option (ℕ × List ℕ)
unfolding starts_digit octet_loop skip_dot
parts_loop zero acc s = some (acc, s)
parts_loop (suc k) acc s = if not (starts_digit s) then none else elim (octet_loop s 0 0) [
  | none ↦ none
  | some (v, s₂) ↦ elim (skip_dot k s₂) [ none ↦ none | some s₃ ↦ parts_loop k (acc * 256 + v) s₃ ]
]

unfoldable pub at_nul : List ℕ → Bool
at_nul [] = true
at_nul (c ∷ s) = false

-- `inet_addr`
unfoldable pub inet_addr : List ℕ → ℕ
unfolding parts_loop at_nul
inet_addr s = elim (parts_loop 4 0 s) [
  | none ↦ 0xFFFFFFFF
  | some (acc, rest) ↦ if at_nul rest then htonl acc else 0xFFFFFFFF
]

-- What one round of `inet_ntoa_r` writes for an octet.
unfoldable pub octet_text : ℕ → List ℕ
octet_text octet =
    (if leb 100 octet then (b'0' + octet / 100) ∷ [] else [])
    ++ (if leb 10 octet then (b'0' + octet / 10 % 10) ∷ [] else [])
    ++ (b'0' + octet % 10) ∷ []

-- The loop of `inet_ntoa_r`, from `i` down to 0.
unfoldable pub ntoa_loop : ℕ → ℕ → List ℕ
unfolding octet_text
ntoa_loop zero h = octet_text (h % 256)
ntoa_loop (suc i) h = octet_text (h / 2 ^ (8 * suc i) % 256) ++ b'.' ∷ ntoa_loop i h

-- `inet_ntoa_r`
unfoldable pub inet_ntoa_r : ℕ → List ℕ
unfolding ntoa_loop
inet_ntoa_r addr_n = ntoa_loop 3 (ntohl addr_n)
