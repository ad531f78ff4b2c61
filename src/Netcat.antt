-- ===== src/Netcat.antt =====
-- tpc/netcat.cpp: the two loops that copy between a socket and the standard streams.
-- `write_n` is the loop of ttcp/ttcp_blocking.cpp, and the connection is the one of Ttcp: its calls
-- and its output are those of the standard output.
pub mod Copies
mod Tests
use linux_socket_test.Prelude.{ℕ, List, [], ◌∷◌, ◌++◌, Bool, true, false, ltb, if◌then◌else◌}
use linux_socket_test.Ttcp.{Conn, Run, done, died, then_run, write_n}

-- The thread that copies to the standard output what `read_some` gives; after the last piece, at the
-- end of the stream or an error, the process exits well.
unfoldable pub receive_loop : List (List ℕ) → Conn → Run {0} Unit
receive_loop [] c = done tt c
receive_loop (buf ∷ bufs) c =
    then_run (write_n buf c)
      (λ nw c₁. let rest = receive_loop bufs c₁ in if ltb 0 nw then rest else died c₁)

-- The loop that copies the standard input to the socket, with whether `boost::asio::write` wrote each
-- piece. The result is what the socket was sent; then its sending side is shut down.
unfoldable pub send_loop : List (List ℕ × Bool) → List ℕ → List ℕ
send_loop [] sent = sent
send_loop ((buf, true) ∷ bufs) sent = send_loop bufs (sent ++ buf)
send_loop ((buf, false) ∷ bufs) sent = sent
