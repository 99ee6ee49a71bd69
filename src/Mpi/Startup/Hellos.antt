-- ===== src/Mpi/Startup/Hellos.antt =====
-- The loop of the startup rendezvous of src/mpi.c at rank 0.
use neoos_libneoos.Base.{
  sym, subst, ◌≢◌, ℕ, zero, suc, ◌<◌, ◌≡◌, refl, ◌⊎◌, inl, inr, ap, ◌∙◌, arith, Bool, true, false,
  ◌&&◌, ◌||◌, ◌==◌, List, [], ◌∷◌, ◌++◌, length, leb, Bool-cases, ℕ_discrete,
}
use neoos_libneoos.Base.Int.{pos, pos_part, eqb_ℤ}
use neoos_libneoos.Base.Census.{put, census, census-put, census-pos, weight-le-census}
use neoos_libneoos.Mpi.Defs.{tag_hello, mpi_success, mpi_err_intern}
use neoos_libneoos.Mpi.Wire.{header_size, header_of}
use neoos_libneoos.Mpi.State.{Arrival, failed, datagram, Mpi, Run, done, waiting}
use neoos_libneoos.Mpi.Receive.{eintr}
use neoos_libneoos.Mpi.Startup.{eagain, is_hello, hello_loop}

-- Whether an answer of `recvfrom` is the hello of rank `j`.
unfoldable pub says_hello : ℕ → Arrival → Bool
says_hello j (failed e) = false
says_hello j (datagram f) =
    leb header_size (length f)
    && eqb_ℤ (header_of f).tag tag_hello
    && eqb_ℤ (header_of f).src (pos j)

-- Whether the hello of rank `j` is among the answers.
unfoldable pub heard : ℕ → List Arrival → Bool
unfolding says_hello
heard j [] = false
heard j (a ∷ arrivals) = says_hello j a || heard j arrivals

-- 1 for a rank that has not been seen.
abbrev pub missing : Bool → ℕ
missing true = 0
missing false = 1

-- How the loop of rank 0 ends in a world of `n` ranks: after hellos from all ranks that had not been
-- seen, at an error of `recvfrom` other than EAGAIN and EINTR with one of them still to be heard, or,
-- polling on, while one of them is still to be heard.
pub data Hellos (n : ℕ) (arrivals : List Arrival) (seen : ℕ → Bool) (st : Mpi) (r : Run ℕ)
    : Type 0 where
  complete :
      (before rest : List Arrival)
      → arrivals ≡ before ++ rest
      → r ≡ done mpi_success (record st { inbox = rest })
      → ((j : ℕ) → j < n → seen j ≡ false → heard j before ≡ true)
      → Hellos n arrivals seen st r
  fails :
      (e : ℕ) (before rest : List Arrival) (j : ℕ)
      → arrivals ≡ before ++ failed e ∷ rest
      → e ≢ eagain
      → e ≢ eintr
      → j < n
      → seen j ≡ false
      → heard j before ≡ false
      → r ≡ done mpi_err_intern (record st { inbox = rest })
      → Hellos n arrivals seen st r
  polls :
      (j : ℕ)
      → j < n
      → seen j ≡ false
      → heard j arrivals ≡ false
      → r ≡ waiting (record st { inbox = [] })
      → Hellos n arrivals seen st r

module _ (n : ℕ) (st : Mpi) (sized : st.size ≡ pos n) where
  -- A frame that passes the test is the hello of a rank that had not been seen; one that does not is
  -- the hello of no such rank.
  is_hello_yes :
      (f : List ℕ) (seen : ℕ → Bool)
      → is_hello f st.size seen ≡ true
      → (says_hello (pos_part (header_of f).src) (datagram f) ≡ true)
        × (pos_part (header_of f).src < n)
        × (seen (pos_part (header_of f).src) ≡ false)
  unfolding is_hello says_hello
  is_hello_yes f seen h = ground arith

  is_hello_no :
      (f : List ℕ) (seen : ℕ → Bool) (j : ℕ)
      → is_hello f st.size seen ≡ false
      → j < n
      → seen j ≡ false
      → says_hello j (datagram f) ≡ false
  unfolding is_hello says_hello
  is_hello_no f seen j h lt s = ground arith

  is_hello_other :
      (f : List ℕ) (j : ℕ) → j ≢ pos_part (header_of f).src → says_hello j (datagram f) ≡ false
  unfolding says_hello
  is_hello_other f j ne = ground arith

  missing_pos : (b : Bool) → 0 < missing b → b ≡ false
  missing_pos b h = ground arith

  other_error : (e : ℕ) → ((e == eagain) || (e == eintr)) ≡ false → (e ≢ eagain) × (e ≢ eintr)
  other_error e h = (ground arith, ground arith)

  -- Any answer in front of a loop that ends well.
  before-Hellos :
      (a : Arrival) (arrivals : List Arrival) (seen seen' : ℕ → Bool) (r r' : Run ℕ)
      → r' ≡ r
      → ((j : ℕ) → j < n → seen j ≡ false → (seen' j ≡ false) ⊎ (says_hello j a ≡ true))
      → ((j : ℕ) → j < n → seen' j ≡ false → (seen j ≡ false) × (says_hello j a ≡ false))
      → Hellos n arrivals seen' st r
      → Hellos n (a ∷ arrivals) seen st r'
  unfolding heard
  before-Hellos a arrivals seen seen' r r' e new old (complete before rest split run all) =
      complete (a ∷ before) rest (ap (λ l. a ∷ l) split) (e ∙ run) λ j lt s. elim (new j lt s) [
        | inl s' ↦ ground (arith, all j lt s')
        | inr says ↦ ground arith
      ]
  before-Hellos a arrivals seen seen' r r' e new old
        (fails x before rest j split again int lt s silent run) =
      let (s', says) = old j lt s in
      fails x (a ∷ before) rest j (ap (λ l. a ∷ l) split) again int lt s' (ground arith) (e ∙ run)
  before-Hellos a arrivals seen seen' r r' e new old (polls j lt s silent run) =
      let (s', says) = old j lt s in polls j lt s' (ground arith) (e ∙ run)

  -- The loop of rank 0, with as many ranks remaining as have not been seen.
  pub hello_loop-Hellos :
      (arrivals : List Arrival) (seen : ℕ → Bool) (remaining : ℕ)
      → census missing n seen ≡ remaining
      → Hellos n arrivals seen st (hello_loop arrivals seen remaining st)
  unfolding hello_loop
  hello_loop-Hellos arrivals seen zero left =
      complete [] arrivals refl refl
        λ j lt s. absurd (omega (arith, weight-le-census missing n seen j lt, ap missing s))
  hello_loop-Hellos [] seen (suc remaining) left =
      let (j, lt, w) = census-pos missing n seen (omega arith) in
      polls j lt (missing_pos (seen j) w) (unfold heard in refl) refl
  hello_loop-Hellos (failed e ∷ arrivals) seen (suc remaining) left =
      elim (Bool-cases ((e == eagain) || (e == eintr))) [
        | inl nothing ↦
            before-Hellos (failed e) arrivals seen seen
              (hello_loop arrivals seen (suc remaining) st) _ (rw (nothing, hello_loop) refl)
              (λ j ltj sj. inl sj) (λ j ltj sj. (sj, unfold says_hello in refl))
              (hello_loop-Hellos arrivals seen (suc remaining) left)
        | inr error ↦
            let (j, lt, w) = census-pos missing n seen (omega arith) in
            let (again, int) = other_error e error in
            fails e [] arrivals j refl again int lt (missing_pos (seen j) w) (unfold heard in refl)
              (rw (error, hello_loop) refl)
      ]
  hello_loop-Hellos (datagram f ∷ arrivals) seen (suc remaining) left =
      elim (Bool-cases (is_hello f st.size seen)) [
        | inl new ↦
            let s = pos_part (header_of f).src in
            let (says, lt, unseen) = is_hello_yes f seen new in
            before-Hellos (datagram f) arrivals seen (put seen s true)
              (hello_loop arrivals (put seen s true) remaining st) _ (rw (new, hello_loop) refl)
              (λ j ltj sj. elim (ℕ_discrete s j) [
                | yes e ↦ inr (subst (λ i. says_hello i (datagram f) ≡ true) e says)
                | no ne ↦ inl (ground arith)
              ])
              (λ j ltj sj. elim (ℕ_discrete s j) [
                | yes e ↦ absurd (ground arith)
                | no ne ↦ (ground arith, is_hello_other f j (λ e. ne (sym e)))
              ])
              (hello_loop-Hellos arrivals (put seen s true) remaining
                (omega (arith, census-put missing n seen s true lt, ap missing unseen)))
        | inr old ↦
            before-Hellos (datagram f) arrivals seen seen
              (hello_loop arrivals seen (suc remaining) st) _ (rw (old, hello_loop) refl)
              (λ j ltj sj. inl sj) (λ j ltj sj. (sj, is_hello_no f seen j old ltj sj))
              (hello_loop-Hellos arrivals seen (suc remaining) left)
      ]
