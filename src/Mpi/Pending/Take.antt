-- ===== src/Mpi/Pending/Take.antt =====
-- `pending_take` and `pending_release` of src/mpi.c against the queue of messages.
use neoos_libneoos.Base.{
  ℕ, zero, suc, ◌+◌, ◌<◌, ◌≡◌, ◌≢◌, refl, sym, true, false, Option, none, some, [], ◌∷◌, ap, ◌∙◌,
  arith, length, if◌then◌else◌, Bool-cases, inl, inr, lt→ltb,
}
use neoos_libneoos.Base.Int.{ℤ}
use neoos_libneoos.Base.Census.{census-put}
use neoos_libneoos.Mpi.Defs.{Message, matches}
use neoos_libneoos.Mpi.Pending.{
  Slot, Pool, pending_slots, deref, write_link, take_loop, pending_take, pending_release,
}
use neoos_libneoos.Mpi.Pending.Chain.{
  Cells, has, Chain, Distinct, flag, IsHolding, IsQueue, Chain-frame, length-le,
}

-- The oldest message that a receive for (source, tag) accepts, and the queue without it.
unfoldable pub first : ℤ → ℤ → Cells → Option (ℕ × Message)
first source tag [] = none
first source tag ((i, m) ∷ xs) =
    if matches m.hdr source tag then some (i, m) else first source tag xs

unfoldable pub without : ℤ → ℤ → Cells → Cells
without source tag [] = []
without source tag ((i, m) ∷ xs) =
    if matches m.hdr source tag then xs else (i, m) ∷ without source tag xs

abbrev pub slot_of : Option (ℕ × Message) → Option ℕ
slot_of none = none
slot_of (some (i, m)) = some i

abbrev OffChain : Option ℕ → Cells → Type 0
OffChain none xs = Unit
OffChain (some j) xs = has j xs ≡ false

deref-write_link :
    (p : Pool) (pp q target : Option ℕ) → q ≢ pp → deref (write_link p pp target) q ≡ deref p q
deref-write_link p none none target ne = absurd (ne refl)
deref-write_link p none (some j) target ne = refl
deref-write_link p (some k) none target ne = refl
deref-write_link p (some k) (some j) target ne =
    let apart : k ≢ j = λ e. ne (ap some (sym e)) in ground arith

module _ (source tag : ℤ) where
  -- The outcome of the loop of `pending_take` from the link `pp` on, before which it does not look.
  record Taken (p : Pool) (pp : Option ℕ) (xs : Cells) (r : Option ℕ) (p' : Pool) : Type 0 where
    result : r ≡ slot_of (first source tag xs)
    chain : Chain p'.slot (deref p' pp) (without source tag xs)
    same_msg : (j : ℕ) → (p'.slot j).msg ≡ (p.slot j).msg
    frame : (q : Option ℕ) → q ≢ pp → OffChain q xs → deref p' q ≡ deref p q
    same_used : p'.used ≡ p.used

  hit-Taken :
      (p : Pool) (pp : Option ℕ) (i : ℕ) (m : Message) (xs : Cells)
      → Chain p.slot (p.slot i).next xs
      → OffChain pp ((i, m) ∷ xs)
      → matches m.hdr source tag ≡ true
      → Taken p pp ((i, m) ∷ xs) (some i) (write_link p pp (p.slot i).next)
  unfolding first without
  hit-Taken p none i m xs c off h = record {
    result = rw h;
    chain = rw h c;
    same_msg = λ j. refl;
    frame = λ q ne o. deref-write_link p none q (p.slot i).next ne;
    same_used = refl;
  }
  hit-Taken p (some k) i m xs c off h =
      let p' = write_link p (some k) (p.slot i).next in
      record {
        result = rw h;
        chain = rw h (Chain-frame p.slot p'.slot _ xs (λ j hj. ground arith) (ground arith));
        same_msg = λ j. ground arith;
        frame = λ q ne o. deref-write_link p (some k) q (p.slot i).next ne;
        same_used = refl;
      }

  miss-Taken :
      (p : Pool) (pp : Option ℕ) (i : ℕ) (m : Message) (xs : Cells) (r : Option ℕ) (p' : Pool)
      → deref p pp ≡ some i
      → (p.slot i).msg ≡ m
      → OffChain pp ((i, m) ∷ xs)
      → has i xs ≡ false
      → matches m.hdr source tag ≡ false
      → Taken p (some i) xs r p'
      → Taken p pp ((i, m) ∷ xs) r p'
  unfolding first without
  miss-Taken p pp i m xs r p' e em off out h t = record {
    result = rw h t.result;
    chain = rw h (t.frame pp (ne pp off) (tail pp off) ∙ e, t.same_msg i ∙ em, t.chain);
    same_msg = t.same_msg;
    frame = λ q nq o. t.frame q (ne q o) (tail q o);
    same_used = t.same_used;
  }
    where
      ne : (q : Option ℕ) → OffChain q ((i, m) ∷ xs) → q ≢ some i
      ne none o = λ z. cc
      ne (some j) o = λ z. ground arith

      tail : (q : Option ℕ) → OffChain q ((i, m) ∷ xs) → OffChain q xs
      tail none o = tt
      tail (some j) o = ground arith

  take_loop-Taken :
      (k : ℕ) (pp cur : Option ℕ) (p : Pool) (xs : Cells)
      → Chain p.slot cur xs
      → deref p pp ≡ cur
      → OffChain pp xs
      → Distinct xs
      → length xs < k
      → (r : Option ℕ) × (p' : Pool) × (take_loop k source tag pp cur p ≡ some (r, p'))
        × Taken p pp xs r p'
  unfolding take_loop first without
  take_loop-Taken zero pp cur p xs c e off d fuel = absurd (omega arith)
  take_loop-Taken (suc k) pp none p [] c e off d fuel = (
    none,
    p,
    refl,
    record {
      result = refl;
      chain = e;
      same_msg = λ j. refl;
      frame = λ q a b. refl;
      same_used = refl;
    },
  )
  take_loop-Taken (suc k) pp (some i) p [] c e off d fuel = cc
  take_loop-Taken (suc k) pp none p ((i, m) ∷ xs) (c, em, n) e off d fuel = cc
  take_loop-Taken (suc k) pp (some j) p ((i, m) ∷ xs) (c, em, n) e off d fuel =
      let ji : j ≡ i = cc in
      rw (ji, em)
        (elim (Bool-cases (matches m.hdr source tag)) [
          | inl h ↦
              rw h (some i, write_link p pp (p.slot i).next, refl, hit-Taken p pp i m xs n off h)
          | inr h ↦
              let (r, p', run, t) =
                take_loop-Taken k (some i) (p.slot i).next p xs n refl d.0 d.1 (omega arith) in
              rw h (r, p', run, miss-Taken p pp i m xs r p' (e ∙ c) em off d.0 h t)
        ])

  has-without : (j : ℕ) (xs : Cells) → has j (without source tag xs) ≡ true → has j xs ≡ true
  unfolding without
  has-without j [] h = h
  has-without j ((i, m) ∷ xs) h = ground (arith, has-without j xs)

  Distinct-without : (xs : Cells) → Distinct xs → Distinct (without source tag xs)
  unfolding without
  Distinct-without [] d = tt
  Distinct-without ((i, m) ∷ xs) d = elim (Bool-cases (matches m.hdr source tag)) [
    | inl h ↦ rw h d.1
    | inr h ↦ rw h (
      elim (Bool-cases (has i (without source tag xs))) [
        | inl b ↦ absurd (Bool-absurd (sym (has-without i xs b) ∙ d.0))
        | inr b ↦ b
      ],
      Distinct-without xs d.1,
    )
  ]
    where
      Bool-absurd : true ≡ false → ⊥
      Bool-absurd h = cc

  -- The slot of the message that is found belongs to the queue, and is not left in it.
  record Found (i : ℕ) (m : Message) (xs : Cells) : Type 0 where
    member : has i xs ≡ true
    gone : has i (without source tag xs) ≡ false
    shorter : length xs ≡ length (without source tag xs) + 1
    accepted : matches m.hdr source tag ≡ true

  first-Found :
      (xs : Cells) (i : ℕ) (m : Message)
      → Distinct xs
      → first source tag xs ≡ some (i, m)
      → Found i m xs
  unfolding first without
  first-Found [] i m d e = cc
  first-Found ((j, n) ∷ xs) i m d e = elim (Bool-cases (matches n.hdr source tag)) [
    | inl h ↦ record {
      member = ground arith;
      gone = ground arith;
      shorter = ground arith;
      accepted = ground arith;
    }
    | inr h ↦
        let f = first-Found xs i m d.1 (ground arith) in
        record {
          member = ground (arith, f.member);
          gone = ground (arith, f.gone, f.member);
          shorter = ground (arith, f.shorter);
          accepted = f.accepted;
        }
  ]

  pub first-none : (xs : Cells) → first source tag xs ≡ none → without source tag xs ≡ xs
  unfolding first without
  first-none [] e = refl
  first-none ((j, n) ∷ xs) e = ground (arith, first-none xs)

  pub first-msg :
      (f : ℕ → Slot) (c : Option ℕ) (xs : Cells) (i : ℕ) (m : Message)
      → Chain f c xs
      → first source tag xs ≡ some (i, m)
      → (f i).msg ≡ m
  unfolding first
  first-msg f c [] i m ch e = cc
  first-msg f c ((j, n) ∷ xs) i m (cj, em, ch) e = elim (Bool-cases (matches n.hdr source tag)) [
    | inl h ↦ ground arith
    | inr h ↦ first-msg f (f j).next xs i m ch (ground arith)
  ]

  taken-apart :
      (p : Pool) (xs : Cells)
      → IsQueue p xs
      → (i : ℕ) (o : Option (ℕ × Message)) → first source tag xs ≡ o
      → slot_of o ≡ some i
      → (has i (without source tag xs) ≡ false) × (p.used i ≡ true) × (i < pending_slots)
  taken-apart p xs q i none e h = cc
  taken-apart p xs q i (some (j, m)) e h =
      let f = first-Found xs j m q.distinct e in
      let ji : j ≡ i = cc in rw (← ji) (f.gone, (q.used j f.member).0, (q.used j f.member).1)

  taken-counted :
      (xs : Cells)
      → Distinct xs
      → (o : Option (ℕ × Message)) → first source tag xs ≡ o
      → length xs + 0 ≡ length (without source tag xs) + elim (slot_of o) [ none ↦ 0 | some _ ↦ 1 ]
  taken-counted xs d none e = rw (first-none xs e)
  taken-counted xs d (some (j, m)) e = omega (arith, (first-Found xs j m d e).shorter)

  -- On a pool that holds the queue `xs` the search ends, and hands out the slot of the oldest message
  -- that matches; the rest keep their places.
  pub pending_take-first :
      (p : Pool) (xs : Cells)
      → IsQueue p xs
      → (p' : Pool) × (pending_take source tag p ≡ some (slot_of (first source tag xs), p'))
        × IsHolding (slot_of (first source tag xs)) p' (without source tag xs)
        × ((j : ℕ) → (p'.slot j).msg ≡ (p.slot j).msg)
  unfolding pending_take
  pending_take-first p xs q =
      let (r, p', run, t) =
        take_loop-Taken (pending_slots + 1) none p.head p xs q.chain refl tt q.distinct
          (omega (arith, length-le q)) in
      (p', rw t.result at run, holding p' t.same_used t.chain, t.same_msg)
    where
      holding :
          (p' : Pool)
          → p'.used ≡ p.used
          → Chain p'.slot p'.head (without source tag xs)
          → IsHolding (slot_of (first source tag xs)) p' (without source tag xs)
      holding p' same chain = record {
        chain = chain;
        distinct = Distinct-without xs q.distinct;
        used = λ i h. rw same (q.used i (has-without i xs h));
        apart = λ i h. rw same (taken-apart p xs q i (first source tag xs) refl h);
        counted = rw same (q.counted ∙ taken-counted xs q.distinct (first source tag xs) refl);
      }

-- Giving back the slot in hand leaves a pool with the queue alone.
pub pending_release-IsQueue :
    (i : ℕ) (p : Pool) (xs : Cells) → IsHolding (some i) p xs → IsQueue (pending_release i p) xs
unfolding pending_release
pending_release-IsQueue i p xs q =
    let (gone, in_use, below) = q.apart i refl in
    rw (lt→ltb i pending_slots below) record {
      chain = q.chain;
      distinct = q.distinct;
      used = λ j h. ground (arith, q.used j h);
      apart = λ j h. cc;
      counted =
          omega
            (arith, q.counted, census-put flag pending_slots p.used i false below, ap flag in_use);
    }
