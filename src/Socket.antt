-- ===== src/Socket.antt =====
-- src/socket.c: the calls, byte order, and dotted addresses.
pub mod Order
pub mod Calls
pub mod Address
mod Tests
