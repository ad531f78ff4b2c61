-- ===== src/TimerServer/AlarmTests.antt =====
-- An alarm and a termination signal that arrive while the timer server waits.
use linux_socket_test.Prelude.{◌≡◌, refl, [], ◌∷◌, some, true, false, arith, ◌>>=◌}
use linux_socket_test.Signals
use linux_socket_test.Signals.{Process, by_default, setup_timer_signals, deliver_all}
use linux_socket_test.TimerServer.{new, signals, on_input}
use linux_socket_test.TimerServer.Alarms.{recv_signals, flagged, alarms_seen}

abbrev process : Process
process = record { errno = 0; pipe = []; room = 9; action = λ n. by_default; restart = λ n. false }

alarms_seen_example :
    (q : Process) × ((setup_timer_signals true true process
        >>= deliver_all (Signals.sigalrm ∷ Signals.sigterm ∷ []))
      ≡ some q)
    × (on_input 0 (signals (recv_signals q.pipe)) new
        ≡ some (flagged new (Signals.sigalrm ∷ Signals.sigterm ∷ [])))
alarms_seen_example =
    alarms_seen process (Signals.sigalrm ∷ Signals.sigterm ∷ []) 0 new refl (refl, (refl, tt))
      (omega arith) (omega arith)
