-- ===== src/Syscall/Kernel.antt =====
-- How src/syscall.c meets the kernel: `syscall0` to `syscall4` and `__neoos_syscall6`.
use neoos_libneoos.Base.{ℕ, List}
use neoos_libneoos.Base.Int.{ℤ, word32, signed32}

-- The kernel's answer to a call number and the registers that the caller sets, in their order rdi, rsi,
-- rdx, r10, r8, r9. The other registers hold what they held before.
abbrev pub Kernel : Type 0
Kernel = ℕ → List ℤ → ℤ

-- `(int)` of a result
abbrev pub to_int : ℤ → ℤ
to_int z = signed32 (word32 z)

-- A `const char *`: its address, and the bytes before the NUL, which `strlen` counts.
pub record CPath : Type 0 where
  pub addr : ℕ
  pub text : List ℕ
