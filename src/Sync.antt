-- ===== src/Sync.antt =====
-- src/pthread.c, src/semaphore.c and src/thread.c. Threads interleave, one atomic access
-- to a step; `futex_wait` and `futex_wake` behave as include/futex.h documents them.
pub mod Mutex
pub mod Semaphore
pub mod Slots
pub mod Objects
pub mod Join
pub mod Condvar
mod Tests
