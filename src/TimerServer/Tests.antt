-- ===== src/TimerServer/Tests.antt =====
-- Runs of the server, and its theorems at two connections.
use linux_socket_test.Prelude.{
  ℕ, ◌+◌, ◌&&◌, if◌then◌else◌, ◌≤◌, ◌≡◌, refl, List, [], ◌∷◌, none, some, false, arith,
}
use linux_socket_test.ListTimer.{add_timer, add_after, locate, adjust_timer, adjust_node, tick}
use linux_socket_test.ListTimer.Sorted.{nil}
use linux_socket_test.TimerServer.{
  TimerServer, new, sigalrm, Input, connection, client, signals, bytes, on_ready, on_inputs,
  on_input, extend_client, set_expire, on_signals, timer_handler,
}
use linux_socket_test.TimerServer.Times.{are_unique, expire_of}
use linux_socket_test.TimerServer.Table.{Table, Implements}
use linux_socket_test.TimerServer.Closed.{count, ends, idle}
use linux_socket_test.TimerServer.Refine.{
  AreAllowed, last_time, has_alarm, spec_inputs, spec_ready, on_ready_refines,
}

abbrev nothing : Table
nothing = λ fd. none

-- At 0 two clients connect, at 10 the first sends something, and at 16 an alarm has come.
abbrev events : List (ℕ × Input)
events =
    (0, connection (some 7))
    ∷ (0, connection (some 8))
    ∷ (10, client 7 bytes)
    ∷ (12, signals (some (sigalrm ∷ [])))
    ∷ []

abbrev after : TimerServer
after = record {
  timer_lst = record { expire = 25; user_data = 7 } ∷ [];
  timeout = false;
  stop_server = false;
  closed = 8 ∷ [];
}

idle_closed : on_ready events 16 new ≡ some after
unfolding on_ready on_inputs on_input extend_client locate add_timer on_signals timer_handler tick
    adjust_timer set_expire adjust_node add_after
idle_closed = refl

start : Implements 0 [] nothing
unfolding are_unique expire_of
start = record {
  sorted = nil;
  unique = refl;
  times = λ fd. refl;
  past = λ fd last e. absurd (ground (arith, e));
}

allowed : AreAllowed 0 events nothing
unfolding AreAllowed
allowed = (
  omega arith,
  (omega arith, refl),
  (omega arith, (omega arith, refl), (omega arith, (0, refl), (omega arith, tt, tt))),
)

late : last_time 0 events ≤ 16
unfolding last_time
late = omega arith

on_ready_refines_example :
    (d : TimerServer) × (on_ready events 16 new ≡ some d)
    × (d.timeout ≡ false)
    × ((fd : ℕ)
        → count fd d.closed
          ≡ 0
            + ends fd events
            + (if has_alarm events && idle 16 fd (spec_inputs events nothing) then 1 else 0))
    × Implements 16 d.timer_lst (spec_ready events 16 nothing)
unfolding count
on_ready_refines_example = on_ready_refines 0 16 events new nothing start refl allowed late
