-- ===== src/Socket/Calls.antt =====
-- The socket calls of src/socket.c. `__neoos_syscall3` passes three registers and `__neoos_syscall6`
-- passes six; `int` results are cut to 32 bits.
use neoos_libneoos.Base.{ℕ, [], ◌∷◌}
use neoos_libneoos.Base.Int.{ℤ, pos}
use neoos_libneoos.Syscall.Kernel.{Kernel, to_int}

-- Numbers of calls
abbrev sys_socket : ℕ
sys_socket = 45

abbrev sys_bind : ℕ
sys_bind = 46

abbrev sys_connect : ℕ
sys_connect = 47

abbrev sys_sendto : ℕ
sys_sendto = 48

abbrev sys_recvfrom : ℕ
sys_recvfrom = 49

abbrev sys_getsockname : ℕ
sys_getsockname = 50

abbrev sys_listen : ℕ
sys_listen = 83

abbrev sys_accept4 : ℕ
sys_accept4 = 84

abbrev sys_shutdown : ℕ
sys_shutdown = 85

abbrev sys_getpeername : ℕ
sys_getpeername = 86

abbrev sys_setsockopt : ℕ
sys_setsockopt = 87

abbrev sys_getsockopt : ℕ
sys_getsockopt = 88

module _ (k : Kernel) where
  -- `socket`
  unfoldable pub socket : ℤ → ℤ → ℤ → ℤ
  socket domain type protocol = to_int (k sys_socket (domain ∷ type ∷ protocol ∷ []))

  -- `bind`
  unfoldable pub bind : ℤ → ℤ → ℤ → ℤ
  bind fd addr len = to_int (k sys_bind (fd ∷ addr ∷ len ∷ []))

  -- `connect`
  unfoldable pub connect : ℤ → ℤ → ℤ → ℤ
  connect fd addr len = to_int (k sys_connect (fd ∷ addr ∷ len ∷ []))

  -- `getsockname`
  unfoldable pub getsockname : ℤ → ℤ → ℤ → ℤ
  getsockname fd addr len = to_int (k sys_getsockname (fd ∷ addr ∷ len ∷ []))

  -- `listen`
  unfoldable pub listen : ℤ → ℤ → ℤ
  listen fd backlog = to_int (k sys_listen (fd ∷ backlog ∷ pos 0 ∷ []))

  -- `accept4`
  unfoldable pub accept4 : ℤ → ℤ → ℤ → ℤ → ℤ
  accept4 fd addr len flags = to_int (k sys_accept4 (fd ∷ addr ∷ len ∷ flags ∷ pos 0 ∷ pos 0 ∷ []))

  -- `accept`
  unfoldable pub accept : ℤ → ℤ → ℤ → ℤ
  unfolding accept4
  accept fd addr len = accept4 fd addr len (pos 0)

  -- `shutdown`
  unfoldable pub shutdown : ℤ → ℤ → ℤ
  shutdown fd how = to_int (k sys_shutdown (fd ∷ how ∷ pos 0 ∷ []))

  -- `getpeername`
  unfoldable pub getpeername : ℤ → ℤ → ℤ → ℤ
  getpeername fd addr len = to_int (k sys_getpeername (fd ∷ addr ∷ len ∷ []))

  -- `setsockopt`
  unfoldable pub setsockopt : ℤ → ℤ → ℤ → ℤ → ℤ → ℤ
  setsockopt fd level opt val len =
      to_int (k sys_setsockopt (fd ∷ level ∷ opt ∷ val ∷ len ∷ pos 0 ∷ []))

  -- `getsockopt`
  unfoldable pub getsockopt : ℤ → ℤ → ℤ → ℤ → ℤ → ℤ
  getsockopt fd level opt val len =
      to_int (k sys_getsockopt (fd ∷ level ∷ opt ∷ val ∷ len ∷ pos 0 ∷ []))

  -- `sendto`
  unfoldable pub sendto : ℤ → ℤ → ℤ → ℤ → ℤ → ℤ → ℤ
  sendto fd buf len flags dest dest_len =
      k sys_sendto (fd ∷ buf ∷ len ∷ flags ∷ dest ∷ dest_len ∷ [])

  -- `recvfrom`
  unfoldable pub recvfrom : ℤ → ℤ → ℤ → ℤ → ℤ → ℤ → ℤ
  recvfrom fd buf len flags src src_len =
      k sys_recvfrom (fd ∷ buf ∷ len ∷ flags ∷ src ∷ src_len ∷ [])

  -- `send`
  unfoldable pub send : ℤ → ℤ → ℤ → ℤ → ℤ
  unfolding sendto
  send fd buf len flags = sendto fd buf len flags (pos 0) (pos 0)

  -- `recv`
  unfoldable pub recv : ℤ → ℤ → ℤ → ℤ → ℤ
  unfolding recvfrom
  recv fd buf len flags = recvfrom fd buf len flags (pos 0) (pos 0)
