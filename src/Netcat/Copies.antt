-- ===== src/Netcat/Copies.antt =====
-- tpc/netcat.cpp: every byte from the socket is copied, in order.
use linux_socket_test.Prelude.{
  ℕ, ◌≤◌, ◌<◌, ◌≡◌, refl, List, [], ◌∷◌, ◌++◌, arith, length, length-append,
}
use linux_socket_test.Ttcp.{Conn, done}
use linux_socket_test.Ttcp.Exact.{serving, Passes, Passes-nothing, Passes-then, write_n_exact}
use linux_socket_test.Netcat.{receive_loop}

unfoldable pub concat : List (List ℕ) → List ℕ
concat [] = []
concat (buf ∷ bufs) = buf ++ concat bufs

abbrev pub AreNonempty : List (List ℕ) → Type 0
AreNonempty [] = Unit
AreNonempty (buf ∷ bufs) = (0 < length buf) × AreNonempty bufs

-- What arrives from the socket, in pieces of any size, is written to the standard output, all of it
-- and in order, however the calls of `write` cut it up, provided that enough of them move bytes.
pub receive_loop_copies :
    (bufs : List (List ℕ)) (c : Conn)
    → AreNonempty bufs
    → length (concat bufs) ≤ serving c.calls
    → (d : Conn) × (receive_loop bufs c ≡ done tt d) × Passes [] (concat bufs) c d
unfolding receive_loop concat
receive_loop_copies [] c some_bytes h = (c, refl, Passes-nothing c)
receive_loop_copies (buf ∷ bufs) c some_bytes h =
    let size = length-append buf (concat bufs) in
    let (d, put, p) = write_n_exact buf c (omega (arith, h, size)) in
    let (e, rest, q) =
      receive_loop_copies bufs d (some_bytes.1) (omega (arith, h, size, p.served)) in
    (e, ground (arith, put, rest, some_bytes.0), Passes-then p q)
