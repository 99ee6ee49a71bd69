-- ===== src/Mpi.antt =====
-- src/mpi.c, a subset of MPI-1 over UDP.
pub mod Defs
pub mod Pending
pub mod Wire
pub mod State
pub mod Send
pub mod Receive
pub mod Launch
pub mod Reduce
pub mod Collective
pub mod Startup
pub mod Reduction
mod Tests
