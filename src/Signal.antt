-- ===== src/Signal.antt =====
-- `sigaction` and `raise` of src/signal.c, and the signal sets of include/signal.h. The kernel is a
-- parameter.
pub mod RoundTrip
mod Tests
use mathlib.Core.Option
use neoos_libneoos.Base.{
  ℕ, ◌+◌, ◌-◌, ◌/◌, ◌%◌, ◌^◌, ◌==◌, Bool, true, false, ◌&&◌, not, Option, none, some, if◌then◌else◌,
}
use neoos_libneoos.Base.Int.{ℤ, pos, eqb_ℤ, word32, signed32}

-- `struct sigaction`; handlers and sets are numbers of 64 bits.
pub record Sigaction : Type 0 where
  pub sa_handler : ℕ
  pub sa_flags : ℕ
  pub sa_mask : ℕ

-- `struct k_sigaction`
pub record KSigaction : Type 0 where
  pub handler : ℕ
  pub flags : ℕ
  pub restorer : ℕ
  pub mask : ℕ

-- The kernel's system calls on a state `S`. `sigaction` is `__sys_rt_sigaction`: what it returns, what it
-- writes at `old` if it returns 0, and the state afterwards. `restore_rt` is the address of
-- `__restore_rt`.
pub record SignalKernel (S : Type 0) : Type 0 where
  pub sigaction : ℤ → Option KSigaction → S → ℤ × KSigaction × S
  pub self : S → ℤ
  pub tkill : ℤ → ℤ → S → ℤ × S
  pub restore_rt : ℕ

-- Whether a number has bit `i`, and the number with it and without it.
unfoldable pub has_bit : ℕ → ℕ → Bool
has_bit n i = n / 2 ^ i % 2 == 1

unfoldable pub set_bit : ℕ → ℕ → ℕ
unfolding has_bit
set_bit n i = if has_bit n i then n else n + 2 ^ i

unfoldable pub clear_bit : ℕ → ℕ → ℕ
unfolding has_bit
clear_bit n i = if has_bit n i then n - 2 ^ i else n

-- The bit of SA_RESTORER, 0x04000000.
abbrev pub sa_restorer : ℕ
sa_restorer = 26

-- `ka`, from what the caller asks for.
unfoldable pub to_kernel : ℕ → Sigaction → KSigaction
unfolding set_bit
to_kernel restore_rt act = record {
  handler = act.sa_handler;
  flags = set_bit act.sa_flags sa_restorer;
  restorer = restore_rt;
  mask = act.sa_mask;
}

-- `*old`, from `ko`.
unfoldable pub from_kernel : KSigaction → Sigaction
unfolding clear_bit
from_kernel ko = record {
  sa_handler = ko.handler;
  sa_flags = clear_bit ko.flags sa_restorer;
  sa_mask = ko.mask;
}

-- `sigaction`: what it returns, what it writes at `old`, and the state. `want` is whether `old` is not
-- null.
unfoldable pub sigaction :
    {S : Type 0} → SignalKernel S → ℤ → Option Sigaction → Bool → S → ℤ × Option Sigaction × S
unfolding to_kernel from_kernel
sigaction kernel sig act want s =
    let (rc, ko, s') = kernel.sigaction sig (Option.map (to_kernel kernel.restore_rt) act) s in
    (signed32 (word32 rc), if eqb_ℤ rc (pos 0) && want then some (from_kernel ko) else none, s')

-- `raise`
unfoldable pub raise : {S : Type 0} → SignalKernel S → ℤ → S → ℤ × S
raise kernel sig s = kernel.tkill (kernel.self s) sig s

-- The sets, for signals from 1 to 64.
unfoldable pub sigemptyset : ℕ
sigemptyset = 0

unfoldable pub sigfillset : ℕ
sigfillset = 2 ^ 64 - 1

unfoldable pub sigaddset : ℕ → ℕ → ℕ
unfolding set_bit
sigaddset set sig = set_bit set (sig - 1)

unfoldable pub sigdelset : ℕ → ℕ → ℕ
unfolding clear_bit
sigdelset set sig = clear_bit set (sig - 1)

unfoldable pub sigismember : ℕ → ℕ → Bool
unfolding has_bit
sigismember set sig = has_bit set (sig - 1)
