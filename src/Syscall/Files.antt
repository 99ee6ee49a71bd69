-- ===== src/Syscall/Files.antt =====
-- src/syscall.c: files, directories and descriptors.
-- A call passes its number and the registers rdi, rsi, rdx, r10, r8 and r9 as far as the source sets
-- them; the kernel is a parameter, and what it returns is the result.
use neoos_libneoos.Syscall.Numbers.{
  sys_chdir, sys_close, sys_dup, sys_dup2, sys_dup3, sys_fcntl, sys_fstat, sys_getdents, sys_ioctl,
  sys_lseek, sys_lstat, sys_mkdir, sys_mount, sys_newfstatat, sys_open, sys_pipe2, sys_poll_nr,
  sys_read, sys_readv, sys_select_nr, sys_stat, sys_umount, sys_unlink, sys_write, sys_writev,
}
use neoos_libneoos.Base.{[], ◌∷◌, length}
use neoos_libneoos.Base.Int.{ℤ, pos}
use neoos_libneoos.Syscall.Kernel.{Kernel, CPath, to_int}

module _ (k : Kernel) where
  unfoldable pub write : ℤ → ℤ → ℤ → ℤ
  write fd buf len = k sys_write (fd ∷ buf ∷ len ∷ [])

  unfoldable pub read : ℤ → ℤ → ℤ → ℤ
  read fd buf len = k sys_read (fd ∷ buf ∷ len ∷ [])

  unfoldable pub open_path : CPath → ℤ → ℤ
  open_path path flags = to_int (k sys_open (pos path.addr ∷ pos (length path.text) ∷ flags ∷ []))

  unfoldable pub close : ℤ → ℤ
  close fd = to_int (k sys_close (fd ∷ []))

  unfoldable pub lseek : ℤ → ℤ → ℤ → ℤ
  lseek fd offset whence = k sys_lseek (fd ∷ offset ∷ whence ∷ [])

  unfoldable pub getdents : ℤ → ℤ → ℤ → ℤ
  getdents fd buf bytes = to_int (k sys_getdents (fd ∷ buf ∷ bytes ∷ []))

  unfoldable pub mount : ℤ → ℤ → ℤ → ℤ
  mount source target fstype = to_int (k sys_mount (source ∷ target ∷ fstype ∷ []))

  unfoldable pub umount : CPath → ℤ
  umount path = to_int (k sys_umount (pos path.addr ∷ pos (length path.text) ∷ []))

  unfoldable pub mkdir : CPath → ℤ
  mkdir path = to_int (k sys_mkdir (pos path.addr ∷ pos (length path.text) ∷ []))

  unfoldable pub unlink : CPath → ℤ
  unlink path = to_int (k sys_unlink (pos path.addr ∷ pos (length path.text) ∷ []))

  unfoldable pub pipe2 : ℤ → ℤ → ℤ
  pipe2 fds flags = to_int (k sys_pipe2 (fds ∷ flags ∷ []))

  unfoldable pub pipe : ℤ → ℤ
  unfolding pipe2
  pipe fds = pipe2 fds (pos 0)

  unfoldable pub poll : ℤ → ℤ → ℤ → ℤ
  poll fds nfds timeout_ms = to_int (k sys_poll_nr (fds ∷ nfds ∷ timeout_ms ∷ []))

  unfoldable pub select : ℤ → ℤ → ℤ → ℤ → ℤ → ℤ
  select nfds rd wr ex tv = to_int (k sys_select_nr (nfds ∷ rd ∷ wr ∷ ex ∷ tv ∷ []))

  unfoldable pub fcntl : ℤ → ℤ → ℤ → ℤ
  fcntl fd cmd arg = to_int (k sys_fcntl (fd ∷ cmd ∷ arg ∷ []))

  unfoldable pub dup : ℤ → ℤ
  dup oldfd = to_int (k sys_dup (oldfd ∷ []))

  unfoldable pub dup2 : ℤ → ℤ → ℤ
  dup2 oldfd newfd = to_int (k sys_dup2 (oldfd ∷ newfd ∷ []))

  unfoldable pub dup3 : ℤ → ℤ → ℤ → ℤ
  dup3 oldfd newfd flags = to_int (k sys_dup3 (oldfd ∷ newfd ∷ flags ∷ []))

  unfoldable pub chdir : CPath → ℤ
  chdir path = to_int (k sys_chdir (pos path.addr ∷ pos (length path.text) ∷ []))

  unfoldable pub stat : CPath → ℤ → ℤ
  stat path st = to_int (k sys_stat (pos path.addr ∷ pos (length path.text) ∷ st ∷ []))

  unfoldable pub lstat : CPath → ℤ → ℤ
  lstat path st = to_int (k sys_lstat (pos path.addr ∷ pos (length path.text) ∷ st ∷ []))

  unfoldable pub fstat : ℤ → ℤ → ℤ
  fstat fd st = to_int (k sys_fstat (fd ∷ st ∷ []))

  unfoldable pub fstatat : ℤ → CPath → ℤ → ℤ → ℤ
  fstatat dirfd path st flags =
      to_int (
        k sys_newfstatat (dirfd ∷ pos path.addr ∷ pos (length path.text) ∷ st ∷ flags ∷ pos 0 ∷ []))

  unfoldable pub writev : ℤ → ℤ → ℤ → ℤ
  writev fd iov iovcnt = k sys_writev (fd ∷ iov ∷ iovcnt ∷ [])

  unfoldable pub readv : ℤ → ℤ → ℤ → ℤ
  readv fd iov iovcnt = k sys_readv (fd ∷ iov ∷ iovcnt ∷ [])

  unfoldable pub ioctl : ℤ → ℤ → ℤ → ℤ
  ioctl fd request arg = to_int (k sys_ioctl (fd ∷ request ∷ arg ∷ []))
