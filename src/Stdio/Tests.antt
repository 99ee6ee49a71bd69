-- ===== src/Stdio/Tests.antt =====
-- The theorems on src/stdio.c at concrete inputs.
use neoos_libneoos.Base.{take, length, arith, ℕ, ◌≡◌, [], true}
use neoos_libneoos.Base.Int.{pos, minus}
use neoos_libneoos.Stdio.{◌∷◌, printf, word, Output, printf_out, uint_chars, capacity}
use neoos_libneoos.Stdio.Prefix.{render, printf_lem}
use neoos_libneoos.Stdio.Numbers.{IsNumeral, read_digits-uint_chars}
use mathlib.Core.Option

-- /dev/kmsg has not been tried, and opens as descriptor 3.
abbrev output : Output
output = record { kmsg_fd = minus 2; open_kmsg = pos 3; written = [] }

printf_lem_example :
    printf (b'%' ∷ b'd' ∷ b'!' ∷ []) (word 42 ∷ []) output
    ≡ Option.map {B = ℕ × Output}
        (λ text. (length (take capacity text), printf_out (take capacity text) output))
        (render (b'%' ∷ b'd' ∷ b'!' ∷ []) (word 42 ∷ []))
printf_lem_example = printf_lem (b'%' ∷ b'd' ∷ b'!' ∷ []) (word 42 ∷ []) output

read_digits-uint_chars_example :
    IsNumeral 10 true 0xBEEF (uint_chars 0xBEEF 10 true)
    × IsNumeral 16 true 0xBEEF (uint_chars 0xBEEF 16 true)
read_digits-uint_chars_example = read_digits-uint_chars 0xBEEF true (omega arith)
