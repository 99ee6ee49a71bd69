-- ===== src/Syscall/Threads.antt =====
-- src/syscall.c: threads, signals, time, futexes and memory.
-- A call passes its number and the registers rdi, rsi, rdx, r10, r8 and r9 as far as the source sets
-- them; the kernel is a parameter, and what it returns is the result.
use neoos_libneoos.Syscall.Numbers.{
  sys_arch_prctl, sys_clock_gettime, sys_futex, sys_getrandom, sys_kill, sys_mmap, sys_munmap,
  sys_nanosleep, sys_rt_sigaction, sys_rt_sigpending, sys_rt_sigprocmask, sys_rt_sigsuspend,
  sys_set_tid_address, sys_sigaltstack, sys_tgkill, sys_thread_create, sys_thread_exit,
  sys_thread_join, sys_thread_self, sys_tkill,
}
use neoos_libneoos.Base.{[], ◌∷◌}
use neoos_libneoos.Base.Int.{ℤ, pos, minus}
use neoos_libneoos.Syscall.Kernel.{Kernel, to_int}

module _ (k : Kernel) where
  unfoldable pub thread_create : ℤ → ℤ → ℤ
  thread_create entry arg = to_int (k sys_thread_create (entry ∷ arg ∷ []))

  unfoldable pub thread_exit : ℤ → ℤ
  thread_exit code = k sys_thread_exit (code ∷ [])

  unfoldable pub thread_join : ℤ → ℤ → ℤ
  thread_join tid code = to_int (k sys_thread_join (tid ∷ code ∷ []))

  unfoldable pub thread_self : ℤ
  thread_self = to_int (k sys_thread_self [])

  unfoldable pub rt_sigaction : ℤ → ℤ → ℤ → ℤ
  rt_sigaction sig act old = k sys_rt_sigaction (sig ∷ act ∷ old ∷ [])

  unfoldable pub sigprocmask : ℤ → ℤ → ℤ → ℤ
  sigprocmask how set old = to_int (k sys_rt_sigprocmask (how ∷ set ∷ old ∷ []))

  unfoldable pub sigpending : ℤ → ℤ
  sigpending set = to_int (k sys_rt_sigpending (set ∷ []))

  unfoldable pub sigsuspend : ℤ → ℤ
  sigsuspend mask = to_int (k sys_rt_sigsuspend (mask ∷ []))

  unfoldable pub sigaltstack : ℤ → ℤ → ℤ
  sigaltstack ss old = to_int (k sys_sigaltstack (ss ∷ old ∷ []))

  unfoldable pub kill : ℤ → ℤ → ℤ
  kill pid sig = to_int (k sys_kill (pid ∷ sig ∷ []))

  unfoldable pub tkill : ℤ → ℤ → ℤ
  tkill tid sig = to_int (k sys_tkill (tid ∷ sig ∷ []))

  unfoldable pub tgkill : ℤ → ℤ → ℤ → ℤ
  tgkill tgid tid sig = to_int (k sys_tgkill (tgid ∷ tid ∷ sig ∷ []))

  unfoldable pub mmap_fd_raw : ℤ → ℤ → ℤ → ℤ → ℤ → ℤ → ℤ
  mmap_fd_raw addr len prot flags fd offset =
      k sys_mmap (addr ∷ len ∷ prot ∷ flags ∷ fd ∷ offset ∷ [])

  unfoldable pub mmap_raw : ℤ → ℤ → ℤ → ℤ → ℤ
  unfolding mmap_fd_raw
  mmap_raw addr len prot flags = mmap_fd_raw addr len prot flags (minus 1) (pos 0)

  unfoldable pub munmap_raw : ℤ → ℤ → ℤ
  munmap_raw addr len = to_int (k sys_munmap (addr ∷ len ∷ []))

  unfoldable pub futex : ℤ → ℤ → ℤ → ℤ → ℤ
  futex uaddr op val timeout = k sys_futex (uaddr ∷ op ∷ val ∷ timeout ∷ [])

  unfoldable pub arch_prctl : ℤ → ℤ → ℤ
  arch_prctl code addr = to_int (k sys_arch_prctl (code ∷ addr ∷ []))

  unfoldable pub clock_gettime : ℤ → ℤ → ℤ
  clock_gettime clk out = to_int (k sys_clock_gettime (clk ∷ out ∷ []))

  unfoldable pub nanosleep : ℤ → ℤ → ℤ
  nanosleep req rem = to_int (k sys_nanosleep (req ∷ rem ∷ []))

  unfoldable pub set_tid_address : ℤ → ℤ
  set_tid_address ptr = to_int (k sys_set_tid_address (ptr ∷ []))

  unfoldable pub getrandom : ℤ → ℤ → ℤ → ℤ
  getrandom buf len flags = k sys_getrandom (buf ∷ len ∷ flags ∷ [])
