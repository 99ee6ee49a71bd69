-- ===== src/Syscall.antt =====
-- src/syscall.c: the system call wrappers.
pub mod Kernel
pub mod Numbers
pub mod Process
pub mod Files
pub mod Threads
pub mod Posix
pub mod Hooks
