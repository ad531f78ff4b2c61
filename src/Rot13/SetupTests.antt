-- ===== src/Rot13/SetupTests.antt =====
-- A listening socket of the rot13 server, and a connection with the descriptor FD_SETSIZE.
use linux_socket_test.Prelude.{
  ℕ, ◌≡◌, refl, [], ◌∷◌, Option, none, some, true, arith, ltb, ◌==◌, if◌then◌else◌,
}
use linux_socket_test.Sockets.{listening, Socket, Kernel, Res, done, ◌>>=◌, make, change}
use linux_socket_test.Sockets.Lemmas.{kernel}
use linux_socket_test.Rot13.Setup.{fd_setsize, run, do_accept, served, do_accept_serves_or_closes}

abbrev listener : Socket
listener = record { stage = listening 40713 16; reuse_addr = true; nonblocking = true }

abbrev listener_open : ℕ → Option Socket
listener_open n = if n == 3 then some listener else none

do_accept_serves_or_closes_example :
    (k : Kernel) × (do_accept 3 (kernel (some 1024 ∷ some 0 ∷ []) listener_open)
      ≡ done (if ltb fd_setsize 1024 then none else some 1024) k)
    × (k.table 1024 ≡ (if ltb fd_setsize 1024 then none else some served))
    × (k.table 3 ≡ some listener)
do_accept_serves_or_closes_example =
    do_accept_serves_or_closes 3 1024 0 3 listener [] listener_open refl refl (omega arith)

abbrev result : Res (Option ℕ) → Option ℕ
result (done fd k) = fd
result _ = none

-- `run` returns where the port is in use.
bind_refused : result (run true (kernel (some 3 ∷ some 0 ∷ some 0 ∷ none ∷ []) (λ n. none))) ≡ none
unfolding run ◌>>=◌ make change
bind_refused = refl

listens :
    result (run true (kernel (some 3 ∷ some 0 ∷ some 0 ∷ some 0 ∷ some 0 ∷ []) (λ n. none)))
    ≡ some 3
unfolding run ◌>>=◌ make change
listens = refl
