-- ===== src/Strings/Tests.antt =====
-- The theorems on src/string.c at concrete inputs.
use neoos_libneoos.Base.{
  List, ℕ, ◌≡◌, ◌↔◌, ◌==◌, ◌||◌, ◌+◌, ◌-◌, [], ◌∷◌, if◌then◌else◌, refl, arith, some, length, inl,
}
use neoos_libneoos.Base.Int.{pos}
use neoos_libneoos.Strings.{Memory, memmove, memcpy, strlen, strcmp, strncmp, memcmp}
use neoos_libneoos.Strings.Move.{within, memmove_lem, memcpy-memmove}
use neoos_libneoos.Strings.Compare.{
  difference, window, until_nul, strlen-length, strcmp_lem, memcmp_strncmp_lem,
}

-- The strings 5 6 at address 0 and 5 at address 3, each with its NUL.
abbrev memory : Memory
memory a = if (a == 0) || (a == 3) then 5 else if a == 1 then 6 else 0

memmove_lem_example :
    memmove 1 0 3 memory 2 ≡ (if within 1 0 3 2 then memory (0 + (2 - 1)) else memory 2)
memmove_lem_example = memmove_lem 1 0 3 memory 2

memcpy-memmove_example : memcpy 0 1 3 memory 2 ≡ memmove 0 1 3 memory 2
memcpy-memmove_example = memcpy-memmove 0 1 3 memory 2 (inl (omega arith))

abbrev long : List ℕ
long = 5 ∷ 6 ∷ []

abbrev short : List ℕ
short = 5 ∷ []

strcmp_lem_example :
    (strcmp 9 memory 0 3 ≡ some (difference long short))
    × ((strcmp 9 memory 0 3 ≡ some (pos 0)) ↔ (long ≡ short))
strcmp_lem_example =
    strcmp_lem long short 9 memory 0 3 (refl, omega arith, (refl, omega arith, refl))
      (refl, omega arith, refl) (omega arith)

strlen-length_example : strlen 9 memory 0 ≡ some (length long)
strlen-length_example =
    strlen-length long 9 memory 0 (refl, omega arith, (refl, omega arith, refl)) (omega arith)

memcmp_strncmp_lem_example :
    (memcmp memory 0 3 3 ≡ difference (window memory 0 0 3) (window memory 3 0 3))
    × (strncmp memory 0 3 3
        ≡ difference (until_nul (window memory 0 0 3)) (until_nul (window memory 3 0 3)))
memcmp_strncmp_lem_example = memcmp_strncmp_lem memory 0 3 3
