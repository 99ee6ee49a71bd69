-- ===== src/Stdio/Prefix.antt =====
-- `printf` of src/stdio.c writes the first 511 bytes of the text that the format stands for.
use neoos_libneoos.Base.{
  inr, inl, Bool-cases, ℕ, zero, suc, ◌≡◌, refl, ◌∙◌, ap, Bool, true, false, Option, none, some,
  List, [], ◌∷◌, ◌++◌, if◌then◌else◌, ltb, length, take, arith, ◌==◌, ◌%◌,
}
use neoos_libneoos.Base.Int.{ℤ, pos, negsuc, signed32}
use neoos_libneoos.Stdio.{
  printf_out, Output, printf, word, str, capacity, append_char, append_string, uint_chars,
  append_uint, append_int, Arg, take_str, take_word, convert, printf_loop,
}
use mathlib.Core.List.{append-nil, append_assoc}
use mathlib.Core.Option

-- The text of one conversion and of a whole format, with no bound.
abbrev pub int_chars : ℤ → List ℕ
int_chars (negsuc n) = b'-' ∷ uint_chars (suc n) 10 false
int_chars (pos n) = uint_chars n 10 false

unfoldable pub conversion : ℕ → List Arg → Option (List ℕ × List Arg)
unfolding take_str take_word
conversion d args =
    if d == b's'
    then take_str args
    else if d == b'd'
    then elim (take_word args) [
      | none ↦ none
      | some (w, rest) ↦ some (int_chars (signed32 w), rest)
    ]
    else if d == b'u'
    then elim (take_word args) [ none ↦ none | some (w, rest) ↦ some (uint_chars w 10 false, rest) ]
    else if d == b'x'
    then elim (take_word args) [ none ↦ none | some (w, rest) ↦ some (uint_chars w 16 false, rest) ]
    else if d == b'c'
    then elim (take_word args) [ none ↦ none | some (w, rest) ↦ some ((w % 256) ∷ [], rest) ]
    else if d == b'%'
    then some (b'%' ∷ [], args)
    else some (b'%' ∷ d ∷ [], args)

unfoldable pub render : List ℕ → List Arg → Option (List ℕ)
render [] args = some []
render (c ∷ []) args = some (c ∷ [])
render (c ∷ d ∷ fmt) args = elim (c == b'%') [
  | false ↦ Option.map (λ text. c ∷ text) (render (d ∷ fmt) args)
  | true ↦ elim (conversion d args) [
    | none ↦ none
    | some (text, rest) ↦ Option.map (λ more. text ++ more) (render fmt rest)
  ]
]

take-nil : (n : ℕ) → take {A = ℕ} n [] ≡ []
take-nil zero = refl
take-nil (suc n) = refl

take-snoc :
    (n : ℕ) (xs : List ℕ) (c : ℕ)
    → (if ltb (length (take n xs)) n then take n xs ++ c ∷ [] else take n xs)
      ≡ take n (xs ++ c ∷ [])
take-snoc zero xs c = refl
take-snoc (suc n) [] c = ground (arith, take-nil n)
take-snoc (suc n) (x ∷ xs) c = ground (arith, take-snoc n xs c)

append_char-take :
    (xs : List ℕ) (c : ℕ) → append_char (take capacity xs) c ≡ take capacity (xs ++ c ∷ [])
unfolding append_char
append_char-take xs c = take-snoc capacity xs c

append_string-take : (xs s : List ℕ) → append_string (take capacity xs) s ≡ take capacity (xs ++ s)
unfolding append_string
append_string-take xs [] = rw append-nil
append_string-take xs (c ∷ s) =
    rw append_char-take
      (append_string-take (xs ++ c ∷ []) s ∙ ap (take capacity) (append_assoc xs (c ∷ []) s))

append_uint-take :
    (xs : List ℕ) (v b : ℕ) (u : Bool)
    → append_uint (take capacity xs) v b u ≡ take capacity (xs ++ uint_chars v b u)
unfolding append_uint
append_uint-take xs v b u = append_string-take xs (uint_chars v b u)

append_int-take :
    (xs : List ℕ) (v : ℤ) → append_int (take capacity xs) v ≡ take capacity (xs ++ int_chars v)
unfolding append_int
append_int-take xs (pos n) = append_uint-take xs n 10 false
append_int-take xs (negsuc n) = rw append_char-take (
    append_uint-take (xs ++ b'-' ∷ []) (suc n) 10 false
    ∙ ap (take capacity) (append_assoc xs (b'-' ∷ []) (uint_chars (suc n) 10 false)))

two :
    (xs : List ℕ) (d : ℕ)
    → append_char (append_char (take capacity xs) b'%') d ≡ take capacity (xs ++ b'%' ∷ d ∷ [])
unfolding append_string
two xs d = append_string-take xs (b'%' ∷ d ∷ [])

convert-take :
    (d : ℕ) (args : List Arg) (xs : List ℕ)
    → convert d args (take capacity xs)
      ≡ Option.map (λ r. (take capacity (xs ++ r.0), r.1)) (conversion d args)
unfolding convert conversion
convert-take d [] xs = ground (arith, append_char-take xs b'%', two xs d)
convert-take d (str s ∷ args) xs =
    ground (arith, append_string-take xs s, append_char-take xs b'%', two xs d)
convert-take d (word w ∷ args) xs = ground (
  arith,
  append_int-take xs (signed32 w),
  append_uint-take xs w 10 false,
  append_uint-take xs w 16 false,
  append_char-take xs (w % 256),
  append_char-take xs b'%',
  two xs d,
)

map-prefix :
    (xs pre : List ℕ) (r : Option (List ℕ))
    → Option.map (λ t. take capacity ((xs ++ pre) ++ t)) r
      ≡ Option.map (λ t. take capacity (xs ++ t)) (Option.map (λ t. pre ++ t) r)
map-prefix xs pre none = refl
map-prefix xs pre (some t) = ap some (ap (take capacity) (append_assoc xs pre t))

-- The rest of the format, after one conversion.
after_conversion :
    (xs : List ℕ) (o : Option (List ℕ × List Arg)) (run : List Arg → List ℕ → Option (List ℕ))
    (text_of : List Arg → Option (List ℕ))
    → ((args : List Arg) (ys : List ℕ)
        → run args (take capacity ys) ≡ Option.map (λ t. take capacity (ys ++ t)) (text_of args))
    → elim (Option.map {B = List ℕ × List Arg}
        (λ (r : List ℕ × List Arg). (take capacity (xs ++ r.0), r.1))
        o) [ none ↦ none | some (buf', rest) ↦ run rest buf' ]
      ≡ Option.map
          (λ t. take capacity (xs ++ t))
          (elim o [
            | none ↦ none
            | some (text, rest) ↦ Option.map (λ more. text ++ more) (text_of rest)
          ])
after_conversion xs none run text_of h = refl
after_conversion xs (some (text, rest)) run text_of h =
    h rest (xs ++ text) ∙ map-prefix xs text (text_of rest)

printf_loop-take :
    (fmt : List ℕ) (args : List Arg) (xs : List ℕ)
    → printf_loop fmt args (take capacity xs)
      ≡ Option.map (λ text. take capacity (xs ++ text)) (render fmt args)
unfolding printf_loop render
printf_loop-take [] args xs = rw append-nil
printf_loop-take (c ∷ []) args xs = ap some (append_char-take xs c)
printf_loop-take (c ∷ d ∷ fmt) args xs = elim (Bool-cases (c == b'%')) [
  | inl e ↦
      rw (e, printf_loop, render, convert-take d args xs)
        (after_conversion xs (conversion d args) (printf_loop fmt) (render fmt)
          (printf_loop-take fmt))
  | inr e ↦
      rw (e, printf_loop, render, append_char-take xs c)
        (printf_loop-take (d ∷ fmt) args (xs ++ c ∷ [])
          ∙ map-prefix xs (c ∷ []) (render (d ∷ fmt) args))
]

-- `printf` writes into its buffer, and so to the output, the first 511 bytes of the text that the
-- format and the arguments stand for, and never more; it lacks an argument exactly if the text does.
pub printf_lem :
    (fmt : List ℕ) (args : List Arg) (o : Output)
    → printf fmt args o
      ≡ Option.map {B = ℕ × Output}
          (λ text. (length (take capacity text), printf_out (take capacity text) o))
          (render fmt args)
unfolding printf
printf_lem fmt args o =
    let e : printf_loop fmt args [] ≡ Option.map (λ text. take capacity text) (render fmt args) =
      printf_loop-take fmt args [] in
    rw (e, printf) (finish (render fmt args))
  where
    finish :
        (r : Option (List ℕ))
        → elim (Option.map (λ text. take capacity text) r) [
          | none ↦ none
          | some buf ↦ some (length buf, printf_out buf o)
        ]
          ≡ Option.map {B = ℕ × Output}
              (λ text. (length (take capacity text), printf_out (take capacity text) o))
              r
    finish none = refl
    finish (some text) = refl
