-- ===== src/Signals/Tests.antt =====
-- Signals that arrive in a short pipe.
use linux_socket_test.Prelude.{◌≡◌, refl, [], ◌∷◌, ◌++◌, some, true, false, arith, ◌>>=◌}
use linux_socket_test.Signals.{
  Process, by_default, sigchld, sigpipe, sigterm, send_byte, sig_handler, setup_sig_pipe,
  deliver_all,
}
use linux_socket_test.Signals.Delivery.{without, pool_signals_arrive}

abbrev process : Process
process = record { errno = 4; pipe = []; room = 3; action = λ n. by_default; restart = λ n. false }

-- A signal that the pipe has no room for is lost, and `errno` is kept.
lost : sig_handler sigterm (record process { room = 0 }) ≡ record process { room = 0 }
unfolding sig_handler send_byte
lost = refl

pool_signals_arrive_example :
    (q : Process) × ((setup_sig_pipe true true process
        >>= deliver_all (sigchld ∷ sigpipe ∷ sigterm ∷ []))
      ≡ some q)
    × (q.errno ≡ 4)
    × (q.pipe ≡ [] ++ without sigpipe (sigchld ∷ sigpipe ∷ sigterm ∷ []))
pool_signals_arrive_example =
    pool_signals_arrive process (sigchld ∷ sigpipe ∷ sigterm ∷ []) (refl, (refl, (refl, tt)))
      (omega arith)
