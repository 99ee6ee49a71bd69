-- ===== src/Syscall/Hooks.antt =====
-- src/syscall.c: the diagnostic calls of include/neoos_test.h, all through SYS_TEST_HOOK.
use neoos_libneoos.Syscall.Numbers.{sys_test_hook}
use neoos_libneoos.Base.{ℕ, [], ◌∷◌}
use neoos_libneoos.Base.Int.{ℤ, pos}
use neoos_libneoos.Syscall.Kernel.{Kernel, to_int}

-- Numbers of calls
abbrev testhook_inject_key : ℕ
testhook_inject_key = 1

abbrev testhook_mig_count : ℕ
testhook_mig_count = 2

abbrev testhook_parent_pid : ℕ
testhook_parent_pid = 3

abbrev testhook_pmm_free : ℕ
testhook_pmm_free = 4

abbrev testhook_poll_stats : ℕ
testhook_poll_stats = 5

abbrev testhook_poll_depth : ℕ
testhook_poll_depth = 6

abbrev testhook_poll_wasted : ℕ
testhook_poll_wasted = 7

abbrev testhook_tcp_fault : ℕ
testhook_tcp_fault = 8

abbrev testhook_tcp_retrans : ℕ
testhook_tcp_retrans = 9

abbrev testhook_tcp_reasm : ℕ
testhook_tcp_reasm = 10

abbrev testhook_tcp_inuse : ℕ
testhook_tcp_inuse = 11

module _ (k : Kernel) where
  unfoldable pub neoos_test_inject_key : ℕ → ℤ → ℤ
  neoos_test_inject_key keycode pressed =
      to_int (k sys_test_hook (pos testhook_inject_key ∷ pos keycode ∷ pressed ∷ []))

  unfoldable pub neoos_test_migration_count : ℤ
  neoos_test_migration_count = k sys_test_hook (pos testhook_mig_count ∷ [])

  unfoldable pub neoos_test_parent_pid : ℤ → ℤ
  neoos_test_parent_pid pid = to_int (k sys_test_hook (pos testhook_parent_pid ∷ pid ∷ pos 0 ∷ []))

  unfoldable pub neoos_test_pmm_free : ℤ
  neoos_test_pmm_free = k sys_test_hook (pos testhook_pmm_free ∷ [])

  unfoldable pub neoos_test_poll_stats : ℤ
  neoos_test_poll_stats = k sys_test_hook (pos testhook_poll_stats ∷ [])

  unfoldable pub neoos_test_poll_depth : ℤ
  neoos_test_poll_depth = k sys_test_hook (pos testhook_poll_depth ∷ [])

  unfoldable pub neoos_test_poll_wasted : ℤ
  neoos_test_poll_wasted = k sys_test_hook (pos testhook_poll_wasted ∷ [])

  unfoldable pub neoos_test_tcp_fault : ℕ → ℕ → ℤ
  neoos_test_tcp_fault drop reorder =
      to_int (k sys_test_hook (pos testhook_tcp_fault ∷ pos drop ∷ pos reorder ∷ []))

  unfoldable pub neoos_test_tcp_retrans : ℤ
  neoos_test_tcp_retrans = k sys_test_hook (pos testhook_tcp_retrans ∷ [])

  unfoldable pub neoos_test_tcp_reasm : ℤ
  neoos_test_tcp_reasm = k sys_test_hook (pos testhook_tcp_reasm ∷ [])

  unfoldable pub neoos_test_tcp_inuse : ℤ
  neoos_test_tcp_inuse = k sys_test_hook (pos testhook_tcp_inuse ∷ [])
