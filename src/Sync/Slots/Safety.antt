-- ===== src/Sync/Slots/Safety.antt =====
-- A start slot of src/thread.c belongs to one thread at a time, and a new thread runs what its creator
-- passed.
use neoos_libneoos.Base.{
  sym, subst, ℕ, ◌+◌, ◌≤◌, ◌<◌, ◌≡◌, ◌≢◌, arith, ap, Bool, true, false, ◌==◌, if◌then◌else◌,
  ℕ_discrete,
}
use neoos_libneoos.Base.Census.{put, census, census-put, census-none, weight-le-census}
use neoos_libneoos.Sync.Slots.{
  Pc, unborn, outside, claimed, written, refused, starting, leaving, released, running, Table, Move,
  System, Step, move, create, init, Reach, start, later,
}

-- Whether a thread owns slot `s`.
abbrev pub owns : ℕ → Pc → ℕ
owns s (claimed f k) = if s == k then 1 else 0
owns s (written f k) = if s == k then 1 else 0
owns s (refused k) = if s == k then 1 else 0
owns s (starting f k) = if s == k then 1 else 0
owns s (leaving f g k) = if s == k then 1 else 0
owns s _ = 0

abbrev taken : Bool → ℕ
taken true = 1
taken false = 0

-- What a thread has written stays in its slot, and what it has read is what was passed.
abbrev pub Right : (ℕ → ℕ) → Pc → Type 0
Right entry (written f s) = entry s ≡ f
Right entry (starting f s) = entry s ≡ f
Right entry (leaving f g s) = g ≡ f
Right entry (released f g) = g ≡ f
Right entry (running f g) = g ≡ f
Right entry _ = Unit

pub record Inv (n : ℕ) (t : Table) (pc : ℕ → Pc) : Type 0 where
  pub owners : (s : ℕ) → census (owns s) n pc ≡ taken (t.in_use s)
  pub right : (j : ℕ) → j < n → Right t.entry (pc j)

taken-le : (b : Bool) → taken b ≤ 1
taken-le true = omega arith
taken-le false = omega arith

-- Two different threads do not own one slot.
apart :
    {n : ℕ} {t : Table} {pc : ℕ → Pc} (i j s : ℕ)
    → Inv n t pc
    → i < n
    → j < n
    → i ≢ j
    → owns s (pc i) ≡ 1
    → owns s (pc j) ≡ 0
apart {n} {t} {pc} i j s inv li lj ne h =
    let other : put pc i outside j ≡ pc j = ground arith in
    omega (
      arith,
      inv.owners s,
      taken-le (t.in_use s),
      census-put (owns s) n pc i outside li,
      weight-le-census (owns s) n (put pc i outside) j lj,
      ap (owns s) other,
    )

-- A write to slot `s` by its owner does not touch what the others rely on.
Right-write :
    (entry : ℕ → ℕ) (s f : ℕ) (p : Pc) → owns s p ≡ 0 → Right entry p → Right (put entry s f) p
Right-write entry s f p h r = ground arith

Move-owners :
    (n : ℕ) {t t' : Table} (pc : ℕ → Pc) (i : ℕ) {p p' : Pc}
    → ((s : ℕ) → census (owns s) n (put pc i p') + owns s p ≡ census (owns s) n pc + owns s p')
    → ((s : ℕ) → owns s p ≤ census (owns s) n pc)
    → ((s : ℕ) → census (owns s) n pc ≡ taken (t.in_use s))
    → Move t p t' p'
    → (s : ℕ) → census (owns s) n (put pc i p') ≡ taken (t'.in_use s)
Move-owners n pc i f b inv (Move.call g) s = ground (arith, f s, inv s)
Move-owners n pc i f b inv (Move.win e) s = ground (arith, f s, inv s)
Move-owners n pc i f b inv (Move.lose e l) s = ground (arith, f s, inv s)
Move-owners n pc i f b inv (Move.full e l) s = ground (arith, f s, inv s)
Move-owners n pc i f b inv Move.write s = ground (arith, f s, inv s)
Move-owners n pc i f b inv Move.refuse s = ground (arith, f s, inv s)
Move-owners n pc i f b inv Move.give_back s = ground (arith, f s, inv s, b s)
Move-owners n pc i f b inv Move.read s = ground (arith, f s, inv s)
Move-owners n pc i f b inv Move.release s = ground (arith, f s, inv s, b s)
Move-owners n pc i f b inv Move.set_up s = ground (arith, f s, inv s)
Move-owners n pc i f b inv Move.no_storage s = ground (arith, f s, inv s)
Move-owners n pc i f b inv Move.finish s = ground (arith, f s, inv s)

-- What is right for the others stays right.
Move-others :
    {t t' : Table} {p p' : Pc} (q : Pc)
    → ((s : ℕ) → owns s p ≡ 1 → owns s q ≡ 0)
    → Move t p t' p'
    → Right t.entry q
    → Right t'.entry q
Move-others q alone (Move.call g) r = r
Move-others q alone (Move.win e) r = r
Move-others q alone (Move.lose e l) r = r
Move-others q alone (Move.full e l) r = r
Move-others {t} q alone (Move.write {f} {s}) r =
    Right-write t.entry s f q (alone s (ground arith)) r
Move-others q alone Move.refuse r = r
Move-others q alone Move.give_back r = r
Move-others q alone Move.read r = r
Move-others q alone Move.release r = r
Move-others q alone Move.set_up r = r
Move-others q alone Move.no_storage r = r
Move-others q alone Move.finish r = r

-- The thread that moves does the right thing.
Move-self : {t t' : Table} {p p' : Pc} → Move t p t' p' → Right t.entry p → Right t'.entry p'
Move-self (Move.call g) r = tt
Move-self (Move.win e) r = tt
Move-self (Move.lose e l) r = tt
Move-self (Move.full e l) r = tt
Move-self Move.write r = ground arith
Move-self Move.refuse r = tt
Move-self Move.give_back r = tt
Move-self Move.read r = r
Move-self Move.release r = r
Move-self Move.set_up r = r
Move-self Move.no_storage r = tt
Move-self Move.finish r = tt

Right-put :
    (entry : ℕ → ℕ) (pc : ℕ → Pc) (i : ℕ) (p : Pc) (j : ℕ)
    → (i ≡ j → Right entry p)
    → (i ≢ j → Right entry (pc j))
    → Right entry (put pc i p j)
Right-put entry pc i p j own others = elim (ℕ_discrete i j) [
  | yes e ↦ let at : put pc i p j ≡ p = ground arith in subst (Right entry) (sym at) (own e)
  | no ne ↦ let at : put pc i p j ≡ pc j = ground arith in subst (Right entry) (sym at) (others ne)
]

move-Inv :
    {n : ℕ} {t t' : Table} {pc : ℕ → Pc} (i : ℕ) {p' : Pc}
    → i < n
    → Inv n t pc
    → Move t (pc i) t' p'
    → Inv n t' (put pc i p')
move-Inv {n} {t} {t'} {pc} i {p'} li inv mv = record {
  owners =
      Move-owners n pc i (λ s. census-put (owns s) n pc i p' li)
        (λ s. weight-le-census (owns s) n pc i li) inv.owners mv;
  right = λ j lj.
      Right-put t'.entry pc i p' j (λ e. Move-self mv (inv.right i li))
        λ ne. Move-others (pc j) (λ s h. apart i j s inv li lj ne h) mv (inv.right j lj);
}

create-Inv :
    {n : ℕ} {t : Table} {pc : ℕ → Pc} (i j : ℕ) {f k : ℕ}
    → i < n
    → j < n
    → pc i ≡ written f k
    → pc j ≡ unborn
    → Inv n t pc
    → Inv n t (put (put pc i outside) j (starting f k))
create-Inv {n} {t} {pc} i j {f} {k} li lj ei ej inv =
    let other : put pc i outside j ≡ unborn = ground arith in
    record {
      owners = λ s. omega (
        arith,
        census-put (owns s) n pc i outside li,
        census-put (owns s) n (put pc i outside) j (starting f k) lj,
        ap (owns s) ei,
        ap (owns s) other,
        inv.owners s,
      );
      right = λ l ll.
          Right-put t.entry (put pc i outside) j (starting f k) l
            (λ e. subst (Right t.entry) ei (inv.right i li))
            λ ne. Right-put t.entry pc i outside l (λ e. tt) λ ne₂. inv.right l ll;
    }

Step-Inv : {n : ℕ} {s t : System} → Inv n s.table s.pc → Step n s t → Inv n t.table t.pc
Step-Inv inv (move i li mv) = move-Inv i li inv mv
Step-Inv inv (create i j li lj ei ej) = create-Inv i j li lj ei ej inv

init-Inv : (n : ℕ) → Inv n init.table init.pc
init-Inv n = record {
  owners = λ s. census-none (owns s) n init.pc (λ i l. idle s i);
  right = λ j l. Right-put init.table.entry (λ _. unborn) 0 outside j (λ e. tt) (λ ne. tt);
}
  where
    idle : (s i : ℕ) → owns s (init.pc i) ≡ 0
    idle s i = ground arith

Reach-Inv : {n : ℕ} {s : System} → Reach n s → Inv n s.table s.pc
Reach-Inv {n} start = init-Inv n
Reach-Inv (later r st) = Step-Inv (Reach-Inv r) st

-- However calls of `thread_create` interleave, two different threads never own one start slot together,
-- from the compare-and-exchange that claims it to the store that releases it.
pub slots_exclusive :
    {n : ℕ} {s : System}
    → Reach n s
    → (i j k : ℕ) → i < n
    → j < n
    → i ≢ j
    → owns k (s.pc i) ≡ 1
    → owns k (s.pc j) ≡ 0
slots_exclusive r i j k li lj ne h = apart i j k (Reach-Inv r) li lj ne h

-- However calls of `thread_create` interleave, a new thread that is about to call its function has read
-- from its slot the function and the argument that its creator passed.
pub runs_what_was_passed :
    {n : ℕ} {s : System} → Reach n s → (j f g : ℕ) → j < n → s.pc j ≡ running f g → g ≡ f
runs_what_was_passed {n} {s} r j f g lj e = subst (Right s.table.entry) e ((Reach-Inv r).right j lj)
