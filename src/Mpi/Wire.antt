-- ===== src/Mpi/Wire.antt =====
-- The datagram of src/mpi.c: `struct mpi_header` as four little-endian `int32_t`, then the payload.
use neoos_libneoos.Base.{
  ℕ, ap, ◌∙◌, ◌+◌, ◌*◌, ◌/◌, ◌%◌, ◌^◌, ◌≡◌, List, ◌∷◌, arith, get_or, drop, length,
}
use neoos_libneoos.Base.Int.{ℤ, word32, signed32, IsInt, signed32-word32}
use neoos_libneoos.Mpi.Defs.{Header, Message}

-- sizeof(struct mpi_header)
abbrev pub header_size : ℕ
header_size = 16

-- The four bytes of a 32-bit word in front of `rest`.
abbrev pub put_word : ℕ → List ℕ → List ℕ
put_word w rest = (w % 256) ∷ (w / 256 % 256) ∷ (w / 2 ^ 16 % 256) ∷ (w / 2 ^ 24) ∷ rest

-- The word at an offset.
abbrev pub word_at : List ℕ → ℕ → ℕ
word_at f i =
    get_or f i 0
    + get_or f (i + 1) 0 * 256
    + get_or f (i + 2) 0 * 2 ^ 16
    + get_or f (i + 3) 0 * 2 ^ 24

-- The frame that `send_raw` builds.
unfoldable pub make_frame : Header → List ℕ → List ℕ
make_frame h body =
    put_word (word32 h.src)
      (put_word (word32 h.tag) (put_word (word32 h.count) (put_word (word32 h.type) body)))

-- The frame read as `*(struct mpi_header *)frame`.
unfoldable pub header_of : List ℕ → Header
header_of f = record {
  src = signed32 (word_at f 0);
  tag = signed32 (word_at f 4);
  count = signed32 (word_at f 8);
  type = signed32 (word_at f 12);
}

-- What `recv_match` takes out of a frame of at least a header.
unfoldable pub message_of : List ℕ → Message
unfolding header_of
message_of f = record { hdr = header_of f; body = drop header_size f }

-- Whether the fields are `int32_t` values.
pub record IsWire (h : Header) : Type 0 where
  pub src : IsInt h.src
  pub tag : IsInt h.tag
  pub count : IsInt h.count
  pub type : IsInt h.type

put_word-back :
    (w : ℕ) → w % 256 + w / 256 % 256 * 256 + w / 2 ^ 16 % 256 * 2 ^ 16 + w / 2 ^ 24 * 2 ^ 24 ≡ w
put_word-back w = omega arith

field_back :
    (a : ℤ)
    → IsInt a
    → signed32 (
        word32 a % 256
        + word32 a / 256 % 256 * 256
        + word32 a / 2 ^ 16 % 256 * 2 ^ 16
        + word32 a / 2 ^ 24 * 2 ^ 24)
      ≡ a
field_back a h = ap signed32 (put_word-back (word32 a)) ∙ signed32-word32 a h

-- A frame that `send_raw` builds is read back as the header and the payload that went into it.
pub message_of-make_frame :
    (h : Header) (body : List ℕ)
    → IsWire h
    → message_of (make_frame h body) ≡ record { hdr = h; body = body }
unfolding message_of make_frame
message_of-make_frame h body w = λ i. record {
  hdr = record {
    src = field_back h.src w.src i;
    tag = field_back h.tag w.tag i;
    count = field_back h.count w.count i;
    type = field_back h.type w.type i;
  };
  body = body;
}

pub length-make_frame :
    (h : Header) (body : List ℕ) → length (make_frame h body) ≡ header_size + length body
unfolding make_frame
length-make_frame h body = omega arith
