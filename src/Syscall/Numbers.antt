-- ===== src/Syscall/Numbers.antt =====
-- The numbers of the system calls, from src/syscall.c.
use neoos_libneoos.Base.{ℕ}

abbrev pub sys_exit : ℕ
sys_exit = 0

abbrev pub sys_write : ℕ
sys_write = 1

abbrev pub sys_yield : ℕ
sys_yield = 2

abbrev pub sys_getpid : ℕ
sys_getpid = 3

abbrev pub sys_spawn : ℕ
sys_spawn = 4

abbrev pub sys_wait : ℕ
sys_wait = 5

abbrev pub sys_read : ℕ
sys_read = 6

abbrev pub sys_open : ℕ
sys_open = 7

abbrev pub sys_close : ℕ
sys_close = 8

abbrev pub sys_mkdir : ℕ
sys_mkdir = 9

abbrev pub sys_unlink : ℕ
sys_unlink = 10

abbrev pub sys_lseek : ℕ
sys_lseek = 11

abbrev pub sys_fork : ℕ
sys_fork = 12

abbrev pub sys_exec : ℕ
sys_exec = 13

abbrev pub sys_mount : ℕ
sys_mount = 14

abbrev pub sys_umount : ℕ
sys_umount = 15

abbrev pub sys_getdents : ℕ
sys_getdents = 16

abbrev pub sys_thread_create : ℕ
sys_thread_create = 17

abbrev pub sys_thread_exit : ℕ
sys_thread_exit = 18

abbrev pub sys_thread_join : ℕ
sys_thread_join = 19

abbrev pub sys_thread_self : ℕ
sys_thread_self = 20

abbrev pub sys_rt_sigaction : ℕ
sys_rt_sigaction = 21

abbrev pub sys_rt_sigprocmask : ℕ
sys_rt_sigprocmask = 22

abbrev pub sys_cpu_count : ℕ
sys_cpu_count = 40

abbrev pub sys_getcpu : ℕ
sys_getcpu = 41

abbrev pub sys_rt_sigpending : ℕ
sys_rt_sigpending = 24

abbrev pub sys_rt_sigsuspend : ℕ
sys_rt_sigsuspend = 25

abbrev pub sys_sigaltstack : ℕ
sys_sigaltstack = 28

abbrev pub sys_mmap : ℕ
sys_mmap = 37

abbrev pub sys_munmap : ℕ
sys_munmap = 38

abbrev pub sys_mprotect : ℕ
sys_mprotect = 39

abbrev pub sys_kill : ℕ
sys_kill = 29

abbrev pub sys_wait4 : ℕ
sys_wait4 = 32

abbrev pub sys_setpgid : ℕ
sys_setpgid = 33

abbrev pub sys_getpgid : ℕ
sys_getpgid = 34

abbrev pub sys_setsid : ℕ
sys_setsid = 35

abbrev pub sys_getsid : ℕ
sys_getsid = 36

abbrev pub sys_tkill : ℕ
sys_tkill = 30

abbrev pub sys_tgkill : ℕ
sys_tgkill = 31

abbrev pub sys_futex : ℕ
sys_futex = 42

abbrev pub sys_pipe2 : ℕ
sys_pipe2 = 43

abbrev pub sys_arch_prctl : ℕ
sys_arch_prctl = 44

abbrev pub sys_spawnv : ℕ
sys_spawnv = 51

abbrev pub sys_fcntl : ℕ
sys_fcntl = 52

abbrev pub sys_dup : ℕ
sys_dup = 70

abbrev pub sys_dup2 : ℕ
sys_dup2 = 71

abbrev pub sys_dup3 : ℕ
sys_dup3 = 72

abbrev pub sys_getppid : ℕ
sys_getppid = 73

abbrev pub sys_uname : ℕ
sys_uname = 74

abbrev pub sys_getuid : ℕ
sys_getuid = 76

abbrev pub sys_getgid : ℕ
sys_getgid = 78

abbrev pub sys_setuid : ℕ
sys_setuid = 80

abbrev pub sys_setgid : ℕ
sys_setgid = 81

abbrev pub sys_getrandom : ℕ
sys_getrandom = 82

abbrev pub sys_chdir : ℕ
sys_chdir = 53

abbrev pub sys_getcwd : ℕ
sys_getcwd = 54

abbrev pub sys_stat : ℕ
sys_stat = 55

abbrev pub sys_lstat : ℕ
sys_lstat = 56

abbrev pub sys_fstat : ℕ
sys_fstat = 57

abbrev pub sys_newfstatat : ℕ
sys_newfstatat = 58

abbrev pub sys_set_tid_address : ℕ
sys_set_tid_address = 59

abbrev pub sys_exit_group : ℕ
sys_exit_group = 60

abbrev pub sys_writev : ℕ
sys_writev = 61

abbrev pub sys_readv : ℕ
sys_readv = 62

abbrev pub sys_ioctl : ℕ
sys_ioctl = 63

abbrev pub sys_clock_gettime : ℕ
sys_clock_gettime = 64

abbrev pub sys_nanosleep : ℕ
sys_nanosleep = 65

abbrev pub sys_test_hook : ℕ
sys_test_hook = 66

abbrev pub sys_poll_nr : ℕ
sys_poll_nr = 67

abbrev pub sys_select_nr : ℕ
sys_select_nr = 68

abbrev pub sys_reboot_nr : ℕ
sys_reboot_nr = 69
