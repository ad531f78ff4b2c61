-- ===== src/EventRot13/Setup.antt =====
-- libevent_test/simper_rot13_server.cpp: `run` and `do_accept`, whose calls on sockets are those of the
-- other rot13 server.
use linux_socket_test.Prelude.{ℕ, Option, Bool}
use linux_socket_test.Sockets.{Calls}
use linux_socket_test.Rot13.Setup

abbrev pub run : Bool → Calls (Option ℕ)
run = Setup.run

abbrev pub do_accept : ℕ → Calls (Option ℕ)
do_accept = Setup.do_accept
