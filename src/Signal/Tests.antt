-- ===== src/Signal/Tests.antt =====
-- A handler installed and read back, for src/signal.c, and a signal in a set.
use neoos_libneoos.Base.{◌+◌, ◌^◌, ◌≡◌, refl, sym, ap, true, none, some}
use neoos_libneoos.Base.Int.{ℤ, pos}
use neoos_libneoos.Signal.{
  Sigaction, KSigaction, SignalKernel, has_bit, set_bit, clear_bit, to_kernel, from_kernel,
  sigaction, sigaddset, sigismember,
}
use neoos_libneoos.Signal.RoundTrip.{IsKeeping, sigaction-sigaction}

-- A kernel with one action for all signals.
abbrev kernel : SignalKernel KSigaction
kernel = record {
  sigaction = λ sig act s. elim act [ none ↦ (pos 0, s, s) | some k ↦ (pos 0, s, k) ];
  self = λ s. pos 1;
  tkill = λ t sig s. (pos 0, s);
  restore_rt = 4096;
}

kernel-IsKeeping : IsKeeping kernel
kernel-IsKeeping = record {
  kept = λ sig k o s s' h.
      let e : s' ≡ k = sym (ap (λ (r : ℤ × KSigaction × KSigaction). r.2) h) in
      ap (λ (x : KSigaction). (pos 0, x, s')) e;
}

-- A handler with SA_RESTART.
abbrev action : Sigaction
action = record { sa_handler = 5000; sa_flags = 2 ^ 28; sa_mask = 3 }

abbrev old : KSigaction
old = record { handler = 0; flags = 0; restorer = 0; mask = 0 }

abbrev new : KSigaction
new = record { handler = 5000; flags = 2 ^ 28 + 2 ^ 26; restorer = 4096; mask = 3 }

sigaction-sigaction_example :
    (sigaction kernel (pos 10) (some action) true old ≡ (pos 0, some (from_kernel old), new))
    × (sigaction kernel (pos 10) none true new ≡ (pos 0, some action, new))
unfolding to_kernel set_bit clear_bit has_bit
sigaction-sigaction_example =
    sigaction-sigaction kernel (pos 10) action old old new kernel-IsKeeping refl

set_and_cleared : sigismember (sigaddset 1 5) 5 ≡ true
unfolding sigismember sigaddset set_bit has_bit
set_and_cleared = refl
