-- ===== src/Socket/Order.antt =====
-- `htons` and `htonl` of src/socket.c. The parts that the source joins by `|` share no bit, so they
-- are added.
use neoos_libneoos.Base.{ℕ, ◌+◌, ◌*◌, ◌/◌, ◌%◌, ◌^◌, ◌<◌, ◌≡◌, arith}

-- `htons`, on a uint16_t
unfoldable pub htons : ℕ → ℕ
htons v = (v * 256 + v / 256) % 2 ^ 16

-- `ntohs`
unfoldable pub ntohs : ℕ → ℕ
unfolding htons
ntohs v = htons v

-- `htonl`, on a uint32_t
unfoldable pub htonl : ℕ → ℕ
htonl v = v % 256 * 2 ^ 24 + v / 256 % 256 * 2 ^ 16 + v / 2 ^ 16 % 256 * 256 + v / 2 ^ 24 % 256

-- `ntohl`
unfoldable pub ntohl : ℕ → ℕ
unfolding htonl
ntohl v = htonl v

-- Network order and back is the identity, for every 16-bit and every 32-bit value.
pub byte_order_round_trip :
    (v w : ℕ) → v < 2 ^ 16 → w < 2 ^ 32 → (ntohs (htons v) ≡ v) × (ntohl (htonl w) ≡ w)
unfolding ntohs ntohl
byte_order_round_trip v w hv hw = (omega arith, omega arith)

pub htonl-lt : (v : ℕ) → htonl v < 2 ^ 32
unfolding htonl
htonl-lt v = omega arith
