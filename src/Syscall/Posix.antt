-- ===== src/Syscall/Posix.antt =====
-- The wrappers of src/syscall.c that translate what the kernel answers.
use neoos_libneoos.Syscall.Numbers.{sys_cpu_count, sys_getcwd, sys_mprotect, sys_reboot_nr}
use neoos_libneoos.Syscall.Files.{ioctl}
use neoos_libneoos.Base.{[], ◌∷◌, ◌||◌, if◌then◌else◌}
use neoos_libneoos.Base.Int.{ℤ, pos, minus, ltb_ℤ, eqb_ℤ}
use neoos_libneoos.Syscall.Kernel.{Kernel, to_int}
use neoos_libneoos.Syscall.Threads.{mmap_fd_raw, munmap_raw, futex}

-- MAP_FAILED, `(void *)-1`
abbrev pub map_failed : ℤ
map_failed = minus 1

-- FUTEX_WAIT | FUTEX_PRIVATE_FLAG and FUTEX_WAKE | FUTEX_PRIVATE_FLAG
abbrev pub futex_wait_private : ℤ
futex_wait_private = pos 128

abbrev pub futex_wake_private : ℤ
futex_wake_private = pos 129

module _ (k : Kernel) where
  -- `mmap`
  unfoldable pub mmap : ℤ → ℤ → ℤ → ℤ → ℤ → ℤ → ℤ
  mmap addr length prot flags fd offset =
      let rc = mmap_fd_raw k addr length prot flags fd offset in
      if ltb_ℤ rc (pos 0) then map_failed else rc

  -- `munmap`
  unfoldable pub munmap : ℤ → ℤ → ℤ
  munmap addr length = if ltb_ℤ (munmap_raw k addr length) (pos 0) then minus 1 else pos 0

  -- `mprotect`
  unfoldable pub mprotect : ℤ → ℤ → ℤ → ℤ
  mprotect addr length prot =
      if ltb_ℤ (to_int (k sys_mprotect (addr ∷ length ∷ prot ∷ []))) (pos 0) then minus 1 else pos 0

  -- `reboot`
  unfoldable pub reboot : ℤ → ℤ
  reboot cmd = if ltb_ℤ (k sys_reboot_nr (cmd ∷ [])) (pos 0) then minus 1 else pos 0

  -- `getcwd`; a null pointer is 0.
  unfoldable pub getcwd : ℤ → ℤ → ℤ
  getcwd buf size = if ltb_ℤ (k sys_getcwd (buf ∷ size ∷ [])) (pos 0) then pos 0 else buf

  -- `sysconf`; _SC_NPROCESSORS_ONLN and _SC_NPROCESSORS_CONF
  unfoldable pub sysconf : ℤ → ℤ
  sysconf name = if eqb_ℤ name (pos 84) || eqb_ℤ name (pos 83) then k sys_cpu_count [] else minus 1

  -- `futex_wait`, `futex_wait_timeout` and `futex_wake`
  unfoldable pub futex_wait : ℤ → ℤ → ℤ
  futex_wait uaddr expected = to_int (futex k uaddr futex_wait_private expected (pos 0))

  unfoldable pub futex_wait_timeout : ℤ → ℤ → ℤ → ℤ
  futex_wait_timeout uaddr expected rel = to_int (futex k uaddr futex_wait_private expected rel)

  unfoldable pub futex_wake : ℤ → ℤ → ℤ
  futex_wake uaddr count = to_int (futex k uaddr futex_wake_private count (pos 0))

  -- `tcgetattr`, `tcsetattr` and `isatty`; `ws` is the address of the `struct winsize` on the stack.
  unfoldable pub tcgetattr : ℤ → ℤ → ℤ
  tcgetattr fd t = ioctl k fd (pos 0x5401) t

  unfoldable pub tcsetattr : ℤ → ℤ → ℤ → ℤ
  tcsetattr fd actions t =
      let req =
        if eqb_ℤ actions (pos 1)
        then pos 0x5403
        else if eqb_ℤ actions (pos 2)
        then pos 0x5404
        else pos 0x5402 in
      ioctl k fd req t

  unfoldable pub isatty : ℤ → ℤ → ℤ
  isatty ws fd = if eqb_ℤ (ioctl k fd (pos 0x5413) ws) (pos 0) then pos 1 else pos 0
