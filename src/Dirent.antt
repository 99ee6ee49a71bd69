-- ===== src/Dirent.antt =====
-- src/dirent.c: directory streams. `open`, `close` and `getdents` are the kernel's: what `getdents` will
-- answer on a descriptor is a list, after which the directory is at its end. A pointer into the buffer
-- of a stream is its offset.
pub mod Listing
mod Tests
use neoos_libneoos.Base.{
  ℕ, zero, suc, ◌+◌, ◌*◌, Bool, true, false, not, Option, none, some, List, [], ◌∷◌, if◌then◌else◌,
  ltb, leb, length, ◌==◌,
}
use neoos_libneoos.Base.Int.{ℤ, pos, minus, ltb_ℤ}
use neoos_libneoos.Base.Census.{put}

-- An answer of `getdents`: a negative errno, or the bytes that it wrote into the buffer.
pub data Answer : Type 0 where
  failed : ℕ → Answer
  filled : List ℕ → Answer

-- `struct DIR`; `buf` is what the kernel last filled of it, so `valid` is its length.
pub record Dir : Type 0 where
  pub in_use : Bool
  pub fd : ℤ
  pub buf : List ℕ
  pub valid : ℕ
  pub next : ℕ
  pub at_end : Bool

-- MAX_OPEN_DIRS
abbrev pub max_open_dirs : ℕ
max_open_dirs = 4

abbrev pub next_answer : List Answer → Answer × List Answer
next_answer [] = (filled [], [])
next_answer (a ∷ as') = (a, as')

abbrev pub byte_at : List ℕ → ℕ → ℕ
byte_at [] i = 0
byte_at (b ∷ bs) zero = b
byte_at (b ∷ bs) (suc i) = byte_at bs i

-- `d_reclen` of the record at an offset, a little-endian uint16_t behind two 64-bit fields
unfoldable pub reclen : List ℕ → ℕ → ℕ
reclen buf off = byte_at buf (off + 16) + 256 * byte_at buf (off + 17)

-- The search of `opendir` for a stream: `k` are left to look at, from stream `i` on.
unfoldable pub free_dir : ℕ → ℕ → (ℕ → Dir) → Option ℕ
free_dir zero i dirs = none
free_dir (suc k) i dirs = if (dirs i).in_use then free_dir k (i + 1) dirs else some i

-- `opendir`, with what `open` returns and what `getdents` then answers: the stream, if any, the table,
-- the answers that are left, and whether the descriptor was closed again.
unfoldable pub opendir : ℤ → List Answer → (ℕ → Dir) → Option ℕ × (ℕ → Dir) × List Answer × Bool
unfolding free_dir
opendir fd answers dirs = elim (free_dir max_open_dirs 0 dirs) [
  | none ↦ (none, dirs, answers, false)
  | some i ↦
      if ltb_ℤ fd (pos 0)
      then (none, dirs, answers, false)
      else let (a, left) = next_answer answers in
        elim a [
          | failed e ↦ (none, dirs, left, true)
          | filled bytes ↦ (
            some i,
            put dirs i (record {
              in_use = true;
              fd = fd;
              buf = bytes;
              valid = length bytes;
              next = 0;
              at_end = length bytes == 0;
            }),
            left,
            false,
          )
        ]
]

-- The end of `readdir`: the record at `next`, which is stepped over.
unfoldable pub hand_out : Dir → Option ℕ × Dir
unfolding reclen
hand_out d = (some d.next, record d { next = d.next + reclen d.buf d.next })

-- `readdir` on a stream that has no record left.
unfoldable pub refill : Dir → List Answer → Option ℕ × Dir × List Answer
unfolding hand_out
refill d answers =
    let (a, left) = next_answer answers in
    elim a [
      | failed e ↦ (none, record d { at_end = true }, left)
      | filled [] ↦ (none, record d { at_end = true }, left)
      | filled (b ∷ bs) ↦
          let (e, d') = hand_out (record d { buf = b ∷ bs; valid = length (b ∷ bs); next = 0 }) in
          (e, d', left)
    ]

-- `readdir`: the offset of the record in the buffer, or a null pointer.
unfoldable pub readdir : Dir → List Answer → Option ℕ × Dir × List Answer
unfolding refill hand_out
readdir d answers =
    if not d.in_use
    then (none, d, answers)
    else if leb d.valid d.next
    then if d.at_end then (none, d, answers) else refill d answers
    else let (e, d') = hand_out d in (e, d', answers)

-- `closedir`: what it returns, and the stream; `rc` is what `close` answers, and EBADF is 9.
unfoldable pub closedir : ℤ → Dir → ℤ × Dir
closedir rc d =
    if not d.in_use
    then (minus 9, d)
    else (rc, record d { in_use = false; fd = minus 1; valid = 0; next = 0; at_end = false })
