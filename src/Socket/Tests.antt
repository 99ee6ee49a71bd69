-- ===== src/Socket/Tests.antt =====
-- The theorems on src/socket.c at concrete inputs.
use neoos_libneoos.Base.{◌≡◌, arith}
use neoos_libneoos.Socket.Address.{inet_addr, inet_ntoa_r}
use neoos_libneoos.Socket.Address.RoundTrip.{inet_addr-inet_ntoa_r}

inet_addr-inet_ntoa_r_example : inet_addr (inet_ntoa_r 0x0100007F) ≡ 0x0100007F
inet_addr-inet_ntoa_r_example = inet_addr-inet_ntoa_r 0x0100007F (omega arith)
