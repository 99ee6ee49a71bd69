-- ===== src/Syscall/Process.antt =====
-- src/syscall.c: processes, users and the system.
-- A call passes its number and the registers rdi, rsi, rdx, r10, r8 and r9 as far as the source sets
-- them; the kernel is a parameter, and what it returns is the result.
use neoos_libneoos.Syscall.Numbers.{
  sys_exec, sys_exit, sys_exit_group, sys_fork, sys_getcpu, sys_getgid, sys_getpgid, sys_getpid,
  sys_getppid, sys_getsid, sys_getuid, sys_setgid, sys_setpgid, sys_setsid, sys_setuid, sys_spawn,
  sys_spawnv, sys_uname, sys_wait, sys_wait4, sys_yield,
}
use neoos_libneoos.Base.{[], ◌∷◌, length}
use neoos_libneoos.Base.Int.{ℤ, pos}
use neoos_libneoos.Syscall.Kernel.{Kernel, CPath, to_int}

module _ (k : Kernel) where
  unfoldable pub exit : ℤ → ℤ
  exit code = k sys_exit (code ∷ [])

  unfoldable pub getpid : ℤ
  getpid = to_int (k sys_getpid [])

  unfoldable pub sched_getcpu : ℤ
  sched_getcpu = to_int (k sys_getcpu [])

  unfoldable pub yield : ℤ
  yield = k sys_yield []

  unfoldable pub spawn : CPath → ℤ
  spawn path = to_int (k sys_spawn (pos path.addr ∷ pos (length path.text) ∷ []))

  unfoldable pub spawnve : CPath → ℤ → ℤ → ℤ
  spawnve path argv envp =
      to_int (k sys_spawnv (pos path.addr ∷ pos (length path.text) ∷ argv ∷ envp ∷ []))

  unfoldable pub spawnv : CPath → ℤ → ℤ
  unfolding spawnve
  spawnv path argv = spawnve path argv (pos 0)

  unfoldable pub fork : ℤ
  fork = to_int (k sys_fork [])

  unfoldable pub execve : CPath → ℤ → ℤ → ℤ
  execve path argv envp =
      to_int (k sys_exec (pos path.addr ∷ pos (length path.text) ∷ argv ∷ envp ∷ []))

  unfoldable pub execv : CPath → ℤ → ℤ
  unfolding execve
  execv path argv = execve path argv (pos 0)

  unfoldable pub exec : CPath → ℤ
  unfolding execv
  exec path = execv path (pos 0)

  unfoldable pub getuid : ℤ
  getuid = to_int (k sys_getuid [])

  unfoldable pub geteuid : ℤ
  geteuid = to_int (k sys_getuid [])

  unfoldable pub getgid : ℤ
  getgid = to_int (k sys_getgid [])

  unfoldable pub getegid : ℤ
  getegid = to_int (k sys_getgid [])

  unfoldable pub setuid : ℤ → ℤ
  setuid uid = to_int (k sys_setuid (uid ∷ []))

  unfoldable pub setgid : ℤ → ℤ
  setgid gid = to_int (k sys_setgid (gid ∷ []))

  unfoldable pub getppid : ℤ
  getppid = to_int (k sys_getppid [])

  unfoldable pub uname : ℤ → ℤ
  uname u = to_int (k sys_uname (u ∷ []))

  unfoldable pub wait : ℤ → ℤ
  wait pid = to_int (k sys_wait (pid ∷ []))

  unfoldable pub wait4 : ℤ → ℤ → ℤ → ℤ → ℤ
  wait4 pid status options rusage = to_int (k sys_wait4 (pid ∷ status ∷ options ∷ []))

  unfoldable pub waitpid : ℤ → ℤ → ℤ → ℤ
  unfolding wait4
  waitpid pid status options = wait4 pid status options (pos 0)

  unfoldable pub setpgid : ℤ → ℤ → ℤ
  setpgid pid pgid = to_int (k sys_setpgid (pid ∷ pgid ∷ []))

  unfoldable pub getpgid : ℤ → ℤ
  getpgid pid = to_int (k sys_getpgid (pid ∷ []))

  unfoldable pub setsid : ℤ
  setsid = to_int (k sys_setsid [])

  unfoldable pub getsid : ℤ → ℤ
  getsid pid = to_int (k sys_getsid (pid ∷ []))

  unfoldable pub exit_group : ℤ → ℤ
  exit_group code = k sys_exit_group (code ∷ [])
