-- ===== src/TimerServer/Refine.antt =====
-- list_timer.cpp: every turn of the main loop keeps the timers and the table of connections together.
use linux_socket_test.Prelude.{
  ℕ, ◌+◌, ◌≤◌, ◌≡◌, refl, sym, List, [], ◌∷◌, some, Bool-cases, inl, inr, Bool, false, ◌||◌, ◌&&◌,
  ap, if◌then◌else◌, arith,
}
use mathlib.Core.Path.{subst}
use linux_socket_test.ListTimer.Expiry.{tick_expires}
use linux_socket_test.TimerServer.{
  TimerServer, Input, close_all, on_inputs, timer_handler, on_ready, Wait, ready, failed, serve,
}
use linux_socket_test.TimerServer.Closed.{count, ends, idle, count-closed_by, count-expired_idle}
use linux_socket_test.TimerServer.Table.{
  Table, spec_input, spec_timeout, IsAllowed, Implements, wait_for, pending-Implements,
}
use linux_socket_test.TimerServer.Inputs.{rings, on_input-Implements}

-- The events of one call of `epoll_wait` for the table, and the time of the last of them.
unfoldable pub spec_inputs : List (ℕ × Input) → Table → Table
spec_inputs [] f = f
spec_inputs ((cur, i) ∷ es) f = spec_inputs es (spec_input cur i f)

unfoldable pub has_alarm : List (ℕ × Input) → Bool
has_alarm [] = false
has_alarm ((cur, i) ∷ es) = rings i || has_alarm es

unfoldable pub last_time : ℕ → List (ℕ × Input) → ℕ
last_time now [] = now
last_time now ((cur, i) ∷ es) = last_time cur es

-- The clock does not go back, and every event is one that the system can give.
unfoldable pub AreAllowed : ℕ → List (ℕ × Input) → Table → Type 0
AreAllowed now [] f = Unit
AreAllowed now ((cur, i) ∷ es) f =
    (now ≤ cur) × IsAllowed i f × AreAllowed cur es (spec_input cur i f)

on_inputs-Implements :
    (now : ℕ) (es : List (ℕ × Input)) (s : TimerServer) (f : Table)
    → Implements now s.timer_lst f
    → AreAllowed now es f
    → (d : TimerServer) × (on_inputs es s ≡ some d)
      × (d.timeout ≡ (s.timeout || has_alarm es))
      × ((fd : ℕ) → count fd d.closed ≡ count fd s.closed + ends fd es)
      × Implements (last_time now es) d.timer_lst (spec_inputs es f)
unfolding on_inputs spec_inputs last_time has_alarm AreAllowed ends
on_inputs-Implements now [] s f v a = (s, refl, ground arith, λ fd. omega arith, v)
on_inputs-Implements now ((cur, i) ∷ es) s f v a =
    let (d, step, due, log, v') = on_input-Implements cur i s f (wait_for (a.0) v) (a.1) in
    let (d', steps, due', log', v'') =
      on_inputs-Implements cur es d (spec_input cur i f) v' (a.2) in
    (
      d',
      ground (arith, step, steps),
      ground (arith, due, due'),
      λ fd. omega (arith, log' fd, ap (count fd) log, count-closed_by fd i s.closed),
      v'',
    )

-- One turn of the main loop for the table.
abbrev pub spec_ready : List (ℕ × Input) → ℕ → Table → Table
spec_ready es cur f = if has_alarm es then spec_timeout cur (spec_inputs es f) else spec_inputs es f

-- One turn of the main loop never leaves the array of users, and never follows a pointer to a timer
-- that is gone, if the clock does not go back and the events are such as the system gives, with
-- descriptors that fit the array. Its timers stand for the table of connections after these events;
-- and where an alarm has come, exactly the connections that were idle for fifteen seconds are gone.
-- A descriptor is closed once for each of the events that ends its connection, and once more where an
-- alarm has come and the connection was idle for fifteen seconds at the end of the turn; nothing else
-- is closed.
pub on_ready_refines :
    (now cur : ℕ) (es : List (ℕ × Input)) (s : TimerServer) (f : Table)
    → Implements now s.timer_lst f
    → s.timeout ≡ false
    → AreAllowed now es f
    → last_time now es ≤ cur
    → (d : TimerServer) × (on_ready es cur s ≡ some d)
      × (d.timeout ≡ false)
      × ((fd : ℕ)
          → count fd d.closed
            ≡ count fd s.closed
              + ends fd es
              + (if has_alarm es && idle cur fd (spec_inputs es f) then 1 else 0))
      × Implements cur d.timer_lst (spec_ready es cur f)
unfolding on_ready timer_handler
on_ready_refines now cur es s f v quiet a h =
    let (d, steps, due, log, v') = on_inputs-Implements now es s f v a in
    let waited = wait_for h v' in
    elim (Bool-cases (has_alarm es)) [
      | inl rung ↦
          let (fires, left, _) = tick_expires cur d.timer_lst v'.sorted in
          (
            record (timer_handler cur d) { timeout = false },
            ground (arith, steps, due, rung),
            refl,
            λ fd. ground (
              arith,
              log fd,
              rung,
              ap (λ x. count fd (close_all x d.closed)) fires,
              count-expired_idle fd (last_time now es) cur d.timer_lst (spec_inputs es f) d.closed
                  v',
            ),
            rw rung (
                subst (λ l. Implements cur l (spec_timeout cur (spec_inputs es f))) (sym left)
                  (pending-Implements cur d.timer_lst (spec_inputs es f) waited)),
          )
      | inr calm ↦ (
        d,
        ground (arith, steps, due, quiet, calm),
        ground (arith, due, quiet, calm),
        λ fd. ground (arith, log fd, calm),
        rw calm waited,
      )
    ]

-- The calls of `epoll_wait` are such as the system gives.
unfoldable pub AreAllowedWaits : ℕ → List Wait → Table → Type 0
AreAllowedWaits now [] f = Unit
AreAllowedWaits now (failed ∷ ws) f = Unit
AreAllowedWaits now (ready es cur ∷ ws) f =
    AreAllowed now es f × (last_time now es ≤ cur) × AreAllowedWaits cur ws (spec_ready es cur f)

-- The main loop runs on, or ends, without such an access, for any calls of `epoll_wait` that the
-- system can give, and at its end each connection has one timer, and the timers are sorted.
pub serve_runs :
    (now : ℕ) (ws : List Wait) (s : TimerServer) (f : Table)
    → Implements now s.timer_lst f
    → s.timeout ≡ false
    → AreAllowedWaits now ws f
    → (d : TimerServer) × (end : ℕ) × (g : Table) × (serve ws s ≡ some d)
      × Implements end d.timer_lst g
unfolding serve AreAllowedWaits
serve_runs now [] s f v quiet a = (s, now, f, refl, v)
serve_runs now (failed ∷ ws) s f v quiet a = (s, now, f, refl, v)
serve_runs now (ready es cur ∷ ws) s f v quiet a = elim (Bool-cases s.stop_server) [
  | inl stop ↦ (s, now, f, ground (arith, stop), v)
  | inr on ↦
      let (d, turn, quiet', _, v') = on_ready_refines now cur es s f v quiet (a.0) (a.1) in
      let (e, last, g, end, v'') = serve_runs cur ws d (spec_ready es cur f) v' quiet' (a.2) in
      (e, last, g, ground (arith, turn, end, on), v'')
]
