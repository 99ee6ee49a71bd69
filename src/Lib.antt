-- ===== src/Lib.antt =====
-- A model of the C library of neoos-libneoos and theorems on it.
--
-- The program is the C library of NeoOS: string and memory functions, `printf`, wrappers of the system
-- calls, threads with mutexes, condition variables and semaphores on futexes, signals, directory
-- streams, sockets, and a small MPI over UDP datagrams. Its parts call the kernel and each other: MPI
-- builds on sockets, strings and `printf`, the locks on futex calls, and everything on the system call
-- wrappers.
--
-- Where each part is modelled:
-- - Base: shared names, lists, integers (`int` as ℤ, with the conversions to and from 32 bits), and
--   tables indexed by numbers with sums over them.
-- - Mpi: src/mpi.c and include/mpi.h. Mpi/Defs has the constants, `struct mpi_header`, `type_size` and
--   `matches`; Mpi/Pending the unexpected-message queue (`pending_take`, `pending_alloc`,
--   `pending_release`, `pending_push`) on a pool of slots linked by indices, and its refinement to a
--   list; Mpi/Wire the datagram; Mpi/State the static variables and the network; Mpi/Send `coll_tag`,
--   `send_raw` and `MPI_Send`; Mpi/Receive `recv_match` and `MPI_Recv` (Mpi/Receive/Arrive for any answers
--   of the kernel, Mpi/Receive/Exchange for a sender and a receiver); Mpi/Launch `parse_rank_args`, `int_to_str` and `MPI_Launch`; Mpi/Startup `MPI_Init` and
--   its rendezvous; Mpi/Reduce `reduce_apply`; Mpi/Reduction `MPI_Reduce` and `MPI_Allreduce`
--   (Mpi/Reduction/Root and Mpi/Reduction/Allreduce at rank 0, Mpi/Reduction/Other at the others);
--   Mpi/Collective `MPI_Finalize`, the queries, `MPI_Barrier` and `MPI_Bcast`. Mpi/Startup/World,
--   Mpi/Collective/Barrier and Mpi/Reduction/World put the calls of all ranks of a world together: what
--   one rank has sent in the end bounds what the others receive, and the network may lose, delay and
--   reorder.
-- - Sync: mutexes (Sync/Mutex), condition variables (Sync/Condvar), semaphores (Sync/Semaphore), the
--   start slots of threads (Sync/Slots) and the table of return values (Sync/Join), in src/pthread.c,
--   src/semaphore.c and src/thread.c. Each atomic access is one constructor of `Move`; threads
--   interleave freely, any number of them; `futex_wait` and `futex_wake` behave as include/futex.h
--   says, with interrupts, spurious wakeups and timeouts. Sync/Condvar and Sync/Join take the mutex as
--   exclusive, so that what the code does under `pt_lock` is one step. Sync/Objects has the functions
--   that make, destroy and read an object.
-- - Signal: src/signal.c and the signal sets of include/signal.h.
-- - Stdio: src/stdio.c. The buffer is the list of the bytes written so far.
-- - Strings: src/string.c, over a memory of bytes.
-- - Socket: src/socket.c. Socket/Calls has the calls, Socket/Order the byte order, Socket/Address the
--   dotted addresses.
-- - Start: src/start.c, the auxiliary vector, the block of thread-local storage and `__libc_start`.
-- - Dirent: src/dirent.c. The buffer of a stream is the bytes that `getdents` last wrote.
-- - Syscall: src/syscall.c. The kernel is a function of the call number and the registers that are
--   set.
--
-- Bounds and fuel. A walk along the unexpected queue has 17 rounds in `pending_take` and 16 in
-- `pending_push`, which is enough, since the queue holds at most 16 messages. The digits of a number
-- have the room that `tmp` has in the source (12 and 32 bytes). `strlen` and `strcmp` have as much
-- fuel as their caller gives; one round more than the string has bytes is enough. The loop around
-- `recvfrom` recurs on what the kernel will answer, and blocks when there is no more; so do the polling
-- loops of the rendezvous, which then poll on.
--
-- What the model takes as given: the kernel's answers, which are parameters or part of the state; the
-- arithmetic of element types in a reduction and how elements stand in bytes; in Sync/Join, that the
-- kernel gives no thread id twice, which no file of the repository says; that an atomic access is one step and that memory is sequentially consistent; that
-- pointers passed in are valid, so that checks for null pointers are left out of the locks.
--
-- Not modelled: src/crt0.asm, which is assembly, and headers that only declare.
pub mod Base
pub mod Mpi
pub mod Socket
pub mod Sync
pub mod Stdio
pub mod Strings
pub mod Syscall
pub mod Dirent
pub mod Start
pub mod Signal
