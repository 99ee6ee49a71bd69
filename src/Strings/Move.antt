-- ===== src/Strings/Move.antt =====
-- What the copying functions of src/string.c leave in memory.
use neoos_libneoos.Base.{
  sym, ◌∙◌, ℕ, zero, suc, ◌+◌, ◌-◌, ◌%◌, ◌≤◌, ◌≡◌, ◌⊎◌, inl, inr, arith, Bool, ◌&&◌, if◌then◌else◌,
  ltb, leb, Bool-cases,
}
use neoos_libneoos.Base.Int.{ℤ, word32}
use neoos_libneoos.Base.Census.{put}
use neoos_libneoos.Strings.{Memory, copy_up, copy_down, memcpy, memmove, set_up, memset}

-- Whether `a` lies among the `k` bytes from `d + i` on.
abbrev pub within : ℕ → ℕ → ℕ → ℕ → Bool
within d i k a = leb (d + i) a && ltb a (d + i + k)

copy_up-lem :
    (d s k i n : ℕ) (m : Memory) (a : ℕ)
    → (d ≤ s) ⊎ (s + n ≤ d)
    → i + k ≤ n
    → copy_up d s k i m a ≡ (if within d i k a then m (s + (a - d)) else m a)
unfolding copy_up
copy_up-lem d s zero i n m a apart h = ground arith
copy_up-lem d s (suc k) i n m a apart h =
    ground (arith, copy_up-lem d s k (i + 1) n (put m (d + i) (m (s + i))) a apart)

copy_down-lem :
    (d s i : ℕ) (m : Memory) (a : ℕ)
    → s ≤ d
    → copy_down d s i m a ≡ (if within d 0 i a then m (s + (a - d)) else m a)
unfolding copy_down
copy_down-lem d s zero m a h = ground arith
copy_down-lem d s (suc i) m a h = ground (arith, copy_down-lem d s i (put m (d + i) (m (s + i))) a)

-- `memmove` moves the bytes as if through a buffer, however source and destination overlap: every byte
-- of the destination is the one that the source had before, and no other byte changes.
pub memmove_lem :
    (d s n : ℕ) (m : Memory) (a : ℕ)
    → memmove d s n m a ≡ (if within d 0 n a then m (s + (a - d)) else m a)
unfolding memmove
memmove_lem d s n m a = elim (Bool-cases (ltb d s)) [
  | inl h ↦ rw h (copy_up-lem d s n 0 n m a (inl (ground arith)) (omega arith))
  | inr h ↦ rw h (copy_down-lem d s n m a (ground arith))
]

-- `memcpy` agrees with `memmove` whenever the destination does not begin inside the source behind its
-- first byte.
pub memcpy-memmove :
    (d s n : ℕ) (m : Memory) (a : ℕ) → (d ≤ s) ⊎ (s + n ≤ d) → memcpy d s n m a ≡ memmove d s n m a
unfolding memcpy
memcpy-memmove d s n m a apart =
    copy_up-lem d s n 0 n m a apart (omega arith) ∙ sym (memmove_lem d s n m a)

set_up-lem :
    (s c k i : ℕ) (m : Memory) (a : ℕ) → set_up s c k i m a ≡ (if within s i k a then c else m a)
unfolding set_up
set_up-lem s c zero i m a = ground arith
set_up-lem s c (suc k) i m a = ground (arith, set_up-lem s c k (i + 1) (put m (s + i) c) a)

-- `memset` writes the low byte of its value to the `n` bytes and to no other.
pub memset_lem :
    (s : ℕ) (c : ℤ) (n : ℕ) (m : Memory) (a : ℕ)
    → memset s c n m a ≡ (if within s 0 n a then word32 c % 256 else m a)
unfolding memset
memset_lem s c n m a = set_up-lem s (word32 c % 256) n 0 m a
