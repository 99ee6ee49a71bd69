-- ===== src/Mpi/Pending/Push.antt =====
-- `pending_alloc` and `pending_push` of src/mpi.c against the queue of messages.
use neoos_libneoos.Base.{
  sym, ◌∙◌, length-append, ℕ, zero, suc, ◌+◌, ◌≤◌, ◌<◌, ◌≡◌, ◌↔◌, refl, subst, some-injective, Bool,
  true, false, Option, none, some, [], ◌∷◌, ◌++◌, ap, arith, length, Bool-cases, inl, inr,
}
use neoos_libneoos.Base.Census.{census, census-le, census-put, put}
use neoos_libneoos.Mpi.Defs.{Message}
use neoos_libneoos.Mpi.Pending.{
  fill, pending_push, Pool, pending_slots, set_next, free_slot, pending_alloc, push_loop,
}
use neoos_libneoos.Mpi.Pending.Chain.{
  length-le, Chain-frame, has-append, Cells, has, Chain, Distinct, flag, flag-le, IsHolding,
  IsQueue,
}

free_slot-some :
    (k i : ℕ) (used : ℕ → Bool) (j : ℕ)
    → free_slot k i used ≡ some j
    → (used j ≡ false) × (j < i + k)
unfolding free_slot
free_slot-some zero i used j e = cc
free_slot-some (suc k) i used j e = elim (Bool-cases (used i)) [
  | inl h ↦ let f = free_slot-some k (i + 1) used j (ground arith) in (f.0, omega arith)
  | inr h ↦ ground arith
]

free_slot-none :
    (k i : ℕ) (used : ℕ → Bool)
    → free_slot k i used ≡ none
    → (j : ℕ) → i ≤ j
    → j < i + k
    → used j ≡ true
unfolding free_slot
free_slot-none zero i used e j a b = absurd (omega arith)
free_slot-none (suc k) i used e j a b = elim (Bool-cases (used i)) [
  | inl h ↦ ground (arith, free_slot-none k (i + 1) used (ground arith) j)
  | inr h ↦ ground arith
]

census-full : (n : ℕ) (used : ℕ → Bool) → ((j : ℕ) → j < n → used j ≡ true) → census flag n used ≡ n
unfolding census
census-full zero used all = refl
census-full (suc n) used all =
    omega (arith, census-full n used (λ j h. all j (omega arith)), ap flag (all n (omega arith)))

-- `pending_alloc` fails exactly when the queue has PENDING_SLOTS messages.
pub pending_alloc-none :
    (p : Pool) (xs : Cells) → IsQueue p xs → (pending_alloc p ≡ none) ↔ (length xs ≡ pending_slots)
unfolding pending_alloc
pending_alloc-none p xs q = (full, fails (free_slot pending_slots 0 p.used) refl)
  where
    full : pending_alloc p ≡ none → length xs ≡ pending_slots
    full e = omega (
      arith,
      q.counted,
      census-full pending_slots p.used (λ j h.
          free_slot-none pending_slots 0 p.used (ground arith) j (omega arith) (omega arith)),
    )

    fails :
        (o : Option ℕ)
        → free_slot pending_slots 0 p.used ≡ o
        → length xs ≡ pending_slots
        → pending_alloc p ≡ none
    fails none e l = rw (e, pending_alloc)
    fails (some j) e l =
        let f = free_slot-some pending_slots 0 p.used j e in
        absurd (
          omega (
            arith,
            q.counted,
            census-put flag pending_slots p.used j true (omega arith),
            census-le flag flag-le pending_slots (put p.used j true),
            ap flag f.0,
          ))

-- The slot that it hands out is in nobody's hands.
pub pending_alloc-IsHolding :
    (p : Pool) (xs : Cells) (i : ℕ) (p' : Pool)
    → IsQueue p xs
    → pending_alloc p ≡ some (i, p')
    → IsHolding (some i) p' xs
unfolding pending_alloc
pending_alloc-IsHolding p xs i p' q e = taken (free_slot pending_slots 0 p.used) refl
  where
    held :
        (j : ℕ)
        → free_slot pending_slots 0 p.used ≡ some j
        → IsHolding (some j) (record p { used = put p.used j true }) xs
    held j f =
        let (free, below) = free_slot-some pending_slots 0 p.used j f in
        record {
          chain = q.chain;
          distinct = q.distinct;
          used = λ a h. ground (arith, q.used a h);
          apart = λ a h. ground (arith, q.used a);
          counted =
              omega
                (arith, q.counted, census-put flag pending_slots p.used j true below, ap flag free);
        }

    taken : (o : Option ℕ) → free_slot pending_slots 0 p.used ≡ o → IsHolding (some i) p' xs
    taken none f = cc
    taken (some j) f =
        let e' : ◌≡◌ {A = Option (ℕ × Pool)} (some (j, record p { used = put p.used j true }))
            (some (i, p')) =
          ground arith in
        subst (λ z. IsHolding (some z.0) z.1 xs) (some-injective _ _ e') (held j f)

-- The walk of `pending_push` ends at the last slot, and links the new one behind it.
push_loop-append :
    (k i t : ℕ) (m m₀ : Message) (q : Pool) (xs : Cells)
    → Chain q.slot (q.slot t).next xs
    → (q.slot t).msg ≡ m₀
    → Distinct ((t, m₀) ∷ xs)
    → has i ((t, m₀) ∷ xs) ≡ false
    → (q.slot i).next ≡ none
    → (q.slot i).msg ≡ m
    → length xs < k
    → (p' : Pool) × (push_loop k i t q ≡ some p')
      × Chain p'.slot (some t) (((t, m₀) ∷ xs) ++ (i, m) ∷ [])
      × (p'.head ≡ q.head)
      × (p'.used ≡ q.used)
      × ((j : ℕ) → has j ((t, m₀) ∷ xs) ≡ false → p'.slot j ≡ q.slot j)
unfolding push_loop
push_loop-append zero i t m m₀ q xs c em d off ni mi fuel = absurd (omega arith)
push_loop-append (suc k) i t m m₀ q [] c em d off ni mi fuel = (
  set_next q t (some i),
  rw (c, push_loop),
  (refl, ground arith, (ground arith, ground arith, ground arith)),
  refl,
  refl,
  λ j h. ground arith,
)
push_loop-append (suc k) i t m m₀ q ((u, n) ∷ xs) (c, eu, ch) em d off ni mi fuel =
    let (p', run, ch', hd, us, frame) =
      push_loop-append k i u m n q xs ch eu d.1 (ground arith) ni mi (omega arith) in
    let same : p'.slot t ≡ q.slot t = frame t d.0 in
    (
      p',
      rw (c, push_loop) run,
      (refl, rw same em, rw (same, c) ch'),
      hd,
      us,
      λ j h. frame j (ground arith),
    )

Distinct-append :
    (xs : Cells) (i : ℕ) (m : Message)
    → Distinct xs
    → has i xs ≡ false
    → Distinct (xs ++ (i, m) ∷ [])
Distinct-append [] i m d h = (refl, tt)
Distinct-append ((j, n) ∷ xs) i m d h =
    (ground (arith, has-append j xs ((i, m) ∷ [])), Distinct-append xs i m d.1 (ground arith))

-- The queue is complete once the new slot stands behind it.
joined :
    {p p' : Pool} {xs : Cells} (i : ℕ) (m : Message)
    → IsHolding (some i) p xs
    → Chain p'.slot p'.head (xs ++ (i, m) ∷ [])
    → p'.used ≡ p.used
    → IsQueue p' (xs ++ (i, m) ∷ [])
joined {p} {p'} {xs} i m q ch us = record {
  chain = ch;
  distinct = Distinct-append xs i m q.distinct (q.apart i refl).0;
  used = λ j h. rw us (ground (arith, has-append j xs ((i, m) ∷ []), q.used j, q.apart i));
  apart = λ j h. cc;
  counted = rw us (omega (arith, q.counted, length-append xs ((i, m) ∷ [])));
}

push-cases :
    (i : ℕ) (m : Message) (p : Pool) (xs : Cells) (head : Option ℕ)
    → p.head ≡ head
    → Chain p.slot head xs
    → Distinct xs
    → has i xs ≡ false
    → (p.slot i).msg ≡ m
    → length xs ≤ pending_slots
    → (p' : Pool) × (pending_push i p ≡ some p')
      × Chain p'.slot p'.head (xs ++ (i, m) ∷ [])
      × (p'.used ≡ p.used)
unfolding pending_push
push-cases i m p [] none hd ch d off mi len = (
  record (set_next p i none) { head = some i },
  rw (hd, pending_push),
  (refl, ground arith, ground arith),
  refl,
)
push-cases i m p [] (some t) hd ch d off mi len = cc
push-cases i m p ((t, n) ∷ xs) none hd (e, en, ch) d off mi len = cc
push-cases i m p ((t, n) ∷ xs) (some u) hd (e, en, ch) d off mi len =
    let q = set_next p i none in
    let ut : u ≡ t = some-injective _ _ e in
    let it : q.slot t ≡ p.slot t = ground arith in
    let (p', run, ch', hd', us, frame) =
      push_loop-append pending_slots i t m n q xs
        (rw it (Chain-frame p.slot q.slot _ xs (λ j h. ground arith) ch)) (rw it en) d off
        (ground arith) (ground arith) (omega arith) in
    let at_head : p.head ≡ some t = hd ∙ ap some ut in
    let start : pending_push i p ≡ push_loop pending_slots i t q =
      ap {B = Option Pool}
        (λ c. elim c [
          | none ↦ some (record q { head = some i })
          | some u ↦ push_loop pending_slots i u q
        ])
        at_head in
    (
      p',
      start ∙ run,
      subst (λ c. Chain p'.slot c (((t, n) ∷ xs) ++ (i, m) ∷ [])) (sym (hd' ∙ at_head)) ch',
      us,
    )

-- On a pool that holds the queue `xs`, `pending_push` ends, and the message in hand is its last.
pub pending_push-append :
    (i : ℕ) (m : Message) (p : Pool) (xs : Cells)
    → IsHolding (some i) p xs
    → (p.slot i).msg ≡ m
    → (p' : Pool) × (pending_push i p ≡ some p') × IsQueue p' (xs ++ (i, m) ∷ [])
pending_push-append i m p xs q mi =
    let (p', run, ch, us) =
      push-cases i m p xs p.head refl q.chain q.distinct (q.apart i refl).0 mi (length-le q) in
    (p', run, joined i m q ch us)

-- Filling the slot in hand does not touch the queue.
pub fill-IsHolding :
    (i : ℕ) (m : Message) (p : Pool) (xs : Cells)
    → IsHolding (some i) p xs
    → IsHolding (some i) (fill i m p) xs × (((fill i m p).slot i).msg ≡ m)
fill-IsHolding i m p xs q = (
  record {
    chain =
        Chain-frame p.slot (fill i m p).slot p.head xs (λ j h. ground (arith, q.apart i refl))
          q.chain;
    distinct = q.distinct;
    used = q.used;
    apart = q.apart;
    counted = q.counted;
  },
  ground arith,
)
