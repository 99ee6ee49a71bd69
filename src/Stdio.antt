-- ===== src/Stdio.antt =====
-- src/stdio.c: `printf` into a buffer of 512 bytes. A C string is the list of its bytes before the
-- NUL; the buffer is the list of the bytes written so far.
pub mod Prefix
pub mod Numbers
mod Tests
use neoos_libneoos.Base.{
  ℕ, zero, suc, ◌+◌, ◌-◌, ◌*◌, ◌/◌, ◌%◌, ◌^◌, ◌==◌, Bool, true, false, Option, none, some, List, [],
  ◌∷◌, ◌++◌, if◌then◌else◌, ltb, leb, length,
}
use neoos_libneoos.Base.Int.{leb_ℤ, minus, eqb_ℤ, ℤ, pos, negsuc, signed32}
use mathlib.Core.List.{reverse}

-- PRINTF_BUFFER_SIZE - 1
abbrev pub capacity : ℕ
capacity = 511

-- `append_char`
unfoldable pub append_char : List ℕ → ℕ → List ℕ
append_char buf c = if ltb (length buf) capacity then buf ++ c ∷ [] else buf

-- `append_string`
unfoldable pub append_string : List ℕ → List ℕ → List ℕ
append_string buf [] = buf
append_string buf (c ∷ s) = append_string (append_char buf c) s

-- `digits_lower[d]` and `digits_upper[d]`
abbrev pub digit_char : Bool → ℕ → ℕ
digit_char uppercase d =
    if ltb d 10 then b'0' + d else if uppercase then b'A' + (d - 10) else b'a' + (d - 10)

-- The loop of `append_uint` that fills `tmp`, last digit first; the fuel is the room in `tmp`.
unfoldable pub tmp_chars : ℕ → ℕ → ℕ → Bool → List ℕ
tmp_chars zero value base uppercase = []
tmp_chars (suc k) value base uppercase =
    let rest = tmp_chars k (value / base) base uppercase in
    if value == 0 then [] else digit_char uppercase (value % base) ∷ rest

-- What `append_uint` appends.
unfoldable pub uint_chars : ℕ → ℕ → Bool → List ℕ
uint_chars value base uppercase =
    if value == 0 then b'0' ∷ [] else reverse (tmp_chars 32 value base uppercase)

-- `append_uint`
unfoldable pub append_uint : List ℕ → ℕ → ℕ → Bool → List ℕ
append_uint buf value base uppercase = append_string buf (uint_chars value base uppercase)

-- `append_int`; the magnitude of a negative number is computed without overflow for an `int`.
unfoldable pub append_int : List ℕ → ℤ → List ℕ
append_int buf (negsuc n) = append_uint (append_char buf b'-') (suc n) 10 false
append_int buf (pos n) = append_uint buf n 10 false

-- An argument behind the format: a string, or the bits of an `int` or `unsigned int`.
pub data Arg : Type 0 where
  str : List ℕ → Arg
  word : ℕ → Arg

-- The `switch` of `printf`, on the character behind a `%`. `none`: `va_arg` asks for an argument that
-- is not there, or is of the other kind, which C leaves undefined.
unfoldable pub take_str : List Arg → Option (List ℕ × List Arg)
take_str (str s ∷ args) = some (s, args)
take_str _ = none

unfoldable pub take_word : List Arg → Option (ℕ × List Arg)
take_word (word w ∷ args) = some (w, args)
take_word _ = none

unfoldable pub convert : ℕ → List Arg → List ℕ → Option (List ℕ × List Arg)
unfolding take_str take_word
convert d args buf =
    if d == b's'
    then elim (take_str args) [ none ↦ none | some (s, rest) ↦ some (append_string buf s, rest) ]
    else if d == b'd'
    then elim (take_word args) [
      | none ↦ none
      | some (w, rest) ↦ some (append_int buf (signed32 w), rest)
    ]
    else if d == b'u'
    then elim (take_word args) [
      | none ↦ none
      | some (w, rest) ↦ some (append_uint buf w 10 false, rest)
    ]
    else if d == b'x'
    then elim (take_word args) [
      | none ↦ none
      | some (w, rest) ↦ some (append_uint buf w 16 false, rest)
    ]
    else if d == b'c'
    then elim (take_word args) [
      | none ↦ none
      | some (w, rest) ↦ some (append_char buf (w % 256), rest)
    ]
    else if d == b'%'
    then some (append_char buf b'%', args)
    else some (append_char (append_char buf b'%') d, args)

-- The loop of `printf`, on the rest of the format. A last character is itself, also a `%`.
unfoldable pub printf_loop : List ℕ → List Arg → List ℕ → Option (List ℕ)
printf_loop [] args buf = some buf
printf_loop (c ∷ []) args buf = some (append_char buf c)
printf_loop (c ∷ d ∷ fmt) args buf = elim (c == b'%') [
  | false ↦ printf_loop (d ∷ fmt) args (append_char buf c)
  | true ↦ elim (convert d args buf) [ none ↦ none | some (buf', rest) ↦ printf_loop fmt rest buf' ]
]

-- `kmsg_fd`, what `open` of /dev/kmsg would answer, and what was written to which descriptor.
pub record Output : Type 0 where
  pub kmsg_fd : ℤ
  pub open_kmsg : ℤ
  pub written : List (ℤ × List ℕ)

-- `printf_out`: -2 means that /dev/kmsg has not been tried.
unfoldable pub printf_out : List ℕ → Output → Output
printf_out buf o =
    let fd = if eqb_ℤ o.kmsg_fd (minus 2) then o.open_kmsg else o.kmsg_fd in
    let target = if leb_ℤ (pos 0) fd then fd else pos 1 in
    record o { kmsg_fd = fd; written = (target, buf) ∷ o.written }

-- `printf`: what it returns, and the output.
unfoldable pub printf : List ℕ → List Arg → Output → Option (ℕ × Output)
printf fmt args o = elim (printf_loop fmt args []) [
  | none ↦ none
  | some buf ↦ some (length buf, printf_out buf o)
]
