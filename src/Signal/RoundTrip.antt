-- ===== src/Signal/RoundTrip.antt =====
-- What `sigaction` of src/signal.c installs, it reads back.
use neoos_libneoos.Base.{ℕ, ◌≡◌, refl, ap, arith, true, none, some}
use neoos_libneoos.Base.Int.{ℤ, pos}
use neoos_libneoos.Signal.{
  Sigaction, KSigaction, SignalKernel, has_bit, set_bit, clear_bit, sa_restorer, to_kernel,
  from_kernel, sigaction,
}

-- A kernel that keeps what a call that succeeds installs, and reports it to a later query.
pub record IsKeeping {S : Type 0} (kernel : SignalKernel S) : Type 0 where
  pub kept :
      (sig : ℤ) (k o : KSigaction) (s s' : S)
      → kernel.sigaction sig (some k) s ≡ (pos 0, o, s')
      → kernel.sigaction sig none s' ≡ (pos 0, k, s')

clear_bit-set_bit :
    (n : ℕ) → clear_bit (set_bit n sa_restorer) sa_restorer ≡ clear_bit n sa_restorer
unfolding clear_bit set_bit has_bit
clear_bit-set_bit n = ground arith

from_kernel-to_kernel :
    (r : ℕ) (act : Sigaction)
    → from_kernel (to_kernel r act) ≡ record act { sa_flags = clear_bit act.sa_flags sa_restorer }
unfolding from_kernel to_kernel
from_kernel-to_kernel r act = ap (λ f. record act { sa_flags = f }) (clear_bit-set_bit act.sa_flags)

-- After a `sigaction` that has installed `act`, with a kernel that keeps what it is given, a query
-- returns 0 and reports `act`, less the flag SA_RESTORER, and changes nothing.
pub sigaction-sigaction :
    {S : Type 0} (kernel : SignalKernel S) (sig : ℤ) (act : Sigaction) (o : KSigaction) (s s' : S)
    → IsKeeping kernel
    → kernel.sigaction sig (some (to_kernel kernel.restore_rt act)) s ≡ (pos 0, o, s')
    → (sigaction kernel sig (some act) true s ≡ (pos 0, some (from_kernel o), s'))
      × (sigaction kernel sig none true s'
          ≡ (pos 0, some (record act { sa_flags = clear_bit act.sa_flags sa_restorer }), s'))
unfolding sigaction
sigaction-sigaction kernel sig act o s s' keeping h = (
  rw (h, sigaction) refl,
  rw (keeping.kept sig (to_kernel kernel.restore_rt act) o s s' h, sigaction)
      (ap (λ a. (pos 0, some a, s')) (from_kernel-to_kernel kernel.restore_rt act)),
)
