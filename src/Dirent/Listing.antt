-- ===== src/Dirent/Listing.antt =====
-- A loop over `readdir` of src/dirent.c sees every record of every buffer, in order.
use neoos_libneoos.Base.Int.{ℤ}
use neoos_libneoos.Base.{
  ℕ, zero, suc, ◌+◌, ◌≤◌, ◌<◌, ◌≡◌, arith, ◌∙◌, ap, true, false, Option, none, some, List, [], ◌∷◌,
  ◌++◌, length,
}
use neoos_libneoos.Dirent.{Answer, filled, Dir, reclen, readdir, refill, hand_out}

-- Calls of `readdir` until it returns a null pointer, at most `k` of them: the records, each as the
-- buffer and the offset in it.
unfoldable pub listing : ℕ → Dir → List Answer → List (List ℕ × ℕ)
listing zero d answers = []
listing (suc k) d answers =
    let (e, d', left) = readdir d answers in
    elim e [ none ↦ [] | some off ↦ (d'.buf, off) ∷ listing k d' left ]

-- From `off` on `buf` holds records of these lengths, up to its end.
abbrev pub Records : List ℕ → ℕ → List ℕ → Type 0
Records buf off [] = off ≡ length buf
Records buf off (l ∷ ls) = (reclen buf off ≡ l) × (0 < l) × Records buf (off + l) ls

abbrev pub entries : List ℕ → ℕ → List ℕ → List (List ℕ × ℕ)
entries buf off [] = []
entries buf off (l ∷ ls) = (buf, off) ∷ entries buf (off + l) ls

-- Buffers with the lengths of their records; a buffer that `getdents` fills has at least one.
abbrev pub Batches : List (List ℕ × List ℕ) → Type 0
Batches [] = Unit
Batches ((buf, []) ∷ bs) = ⊥
Batches ((buf, l ∷ ls) ∷ bs) = Records buf 0 (l ∷ ls) × Batches bs

abbrev pub answers_of : List (List ℕ × List ℕ) → List Answer
answers_of [] = []
answers_of ((buf, ls) ∷ bs) = filled buf ∷ answers_of bs

abbrev pub all_entries : List (List ℕ × List ℕ) → List (List ℕ × ℕ)
all_entries [] = []
all_entries ((buf, ls) ∷ bs) = entries buf 0 ls ++ all_entries bs

Records-le : (buf : List ℕ) (off : ℕ) (ls : List ℕ) → Records buf off ls → off ≤ length buf
Records-le buf off [] h = omega (arith, h)
Records-le buf off (l ∷ ls) (e, p, h) = omega (arith, p, Records-le buf (off + l) ls h)

-- An open stream at offset `off` of `buf`.
abbrev pub stream : ℤ → List ℕ → ℕ → Dir
stream fd buf off = record {
  in_use = true;
  fd = fd;
  buf = buf;
  valid = length buf;
  next = off;
  at_end = false;
}

listing-step :
    (k : ℕ) (d d' : Dir) (answers left : List Answer) (off : ℕ)
    → readdir d answers ≡ (some off, d', left)
    → listing (suc k) d answers ≡ (d'.buf, off) ∷ listing k d' left
unfolding listing
listing-step k d d' answers left off h =
    ap
      (λ (r : Option ℕ × Dir × List Answer). elim (r.0) [
        | none ↦ []
        | some o ↦ (r.1.buf, o) ∷ listing k r.1 r.2
      ])
      h

readdir-within :
    (fd : ℤ) (buf : List ℕ) (off l : ℕ) (answers : List Answer)
    → off < length buf
    → reclen buf off ≡ l
    → readdir (stream fd buf off) answers ≡ (some off, stream fd buf (off + l), answers)
unfolding readdir hand_out
readdir-within fd buf off l answers h e = ground arith

readdir-refill :
    (fd : ℤ) (buf : List ℕ) (b : ℕ) (buf₂ : List ℕ) (l : ℕ) (answers : List Answer)
    → reclen (b ∷ buf₂) 0 ≡ l
    → readdir (stream fd buf (length buf)) (filled (b ∷ buf₂) ∷ answers)
      ≡ (some 0, stream fd (b ∷ buf₂) (0 + l), answers)
unfolding readdir refill hand_out
readdir-refill fd buf b buf₂ l answers e = ground arith

-- From a stream in the middle of a buffer, with more buffers to come, enough calls of `readdir` return
-- the rest of the records of the buffer and then those of the others, each once and in order, and then
-- a null pointer.
pub listing_lem :
    (ls : List ℕ) (k : ℕ) (fd : ℤ) (buf : List ℕ) (off : ℕ) (bs : List (List ℕ × List ℕ))
    → Records buf off ls
    → Batches bs
    → length (entries buf off ls ++ all_entries bs) < k
    → listing k (stream fd buf off) (answers_of bs) ≡ entries buf off ls ++ all_entries bs
unfolding listing readdir refill hand_out
listing_lem ls zero fd buf off bs h hb f = absurd (omega arith)
listing_lem [] (suc k) fd buf off [] h hb f = ground arith
listing_lem [] (suc k) fd buf off ((buf₂, []) ∷ bs) h hb f = absurd hb
listing_lem [] (suc k) fd buf off (([], l ∷ ls) ∷ bs) h ((e, p, hr), hb) f =
    absurd (omega (arith, p, Records-le [] (0 + l) ls hr))
listing_lem [] (suc k) fd buf off ((b ∷ buf₂, l ∷ ls) ∷ bs) h ((e, p, hr), hb) f = rw h (
    listing-step k (stream fd buf (length buf)) (stream fd (b ∷ buf₂) (0 + l))
      (answers_of ((b ∷ buf₂, l ∷ ls) ∷ bs)) (answers_of bs) 0
      (readdir-refill fd buf b buf₂ l (answers_of bs) e)
    ∙ ap (λ t. (b ∷ buf₂, 0) ∷ t) (listing_lem ls k fd (b ∷ buf₂) (0 + l) bs hr hb (omega arith)))
listing_lem (l ∷ ls) (suc k) fd buf off bs (e, p, h) hb f =
    let inside : off < length buf = omega (arith, p, Records-le buf (off + l) ls h) in
    listing-step k (stream fd buf off) (stream fd buf (off + l)) (answers_of bs) (answers_of bs) off
      (readdir-within fd buf off l (answers_of bs) inside e)
    ∙ ap (λ t. (buf, off) ∷ t) (listing_lem ls k fd buf (off + l) bs h hb (omega arith))
