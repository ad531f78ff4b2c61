-- ===== src/TimerServer/Inputs.antt =====
-- list_timer.cpp: every event keeps the timers and the table of connections together.
use linux_socket_test.Prelude.{
  ℕ, ◌+◌, ◌*◌, ◌≡◌, refl, sym, List, [], ◌∷◌, none, some, Bool, true, false, ◌||◌, arith,
}
use mathlib.Core.Path.{subst}
use linux_socket_test.ListTimer.{UtilTimer, add_timer, adjust_timer, del_timer}
use linux_socket_test.ListTimer.Sorted.{add_timer-add_after}
use linux_socket_test.TimerServer.{
  TimerServer, timeslot, Signal, sigalrm, sigterm, other_signal, bytes, ended, would_block, broken,
  Input, connection, signals, client, no_input, set_expire, drop_client, extend_client, on_signals,
  on_input,
}
use linux_socket_test.TimerServer.Times.{expire_of, remove, del_timer-remove}
use linux_socket_test.TimerServer.Moves.{expire_of-Found, set_expire-IsMoved}
use linux_socket_test.TimerServer.Closed.{closed_by}
use linux_socket_test.TimerServer.Table.{
  Table, update, spec_input, IsAllowed, Implements, same_table, add_after-Implements,
  remove-Implements,
}

on_signals-timers : (ss : List Signal) (s : TimerServer) → (on_signals ss s).timer_lst ≡ s.timer_lst
unfolding on_signals
on_signals-timers [] s = refl
on_signals-timers (sigalrm ∷ ss) s = on_signals-timers ss (record s { timeout = true })
on_signals-timers (sigterm ∷ ss) s = on_signals-timers ss (record s { stop_server = true })
on_signals-timers (other_signal ∷ ss) s = on_signals-timers ss s

abbrev pub is_alarm : List Signal → Bool
is_alarm [] = false
is_alarm (sigalrm ∷ ss) = true
is_alarm (sigterm ∷ ss) = is_alarm ss
is_alarm (other_signal ∷ ss) = is_alarm ss

abbrev pub rings : Input → Bool
rings (signals (some ss)) = is_alarm ss
rings (signals none) = false
rings (connection fd) = false
rings (client fd r) = false
rings no_input = false

on_signals-timeout :
    (ss : List Signal) (s : TimerServer) → (on_signals ss s).timeout ≡ (s.timeout || is_alarm ss)
unfolding on_signals
on_signals-timeout [] s = ground arith
on_signals-timeout (sigalrm ∷ ss) s =
    ground (arith, on_signals-timeout ss (record s { timeout = true }))
on_signals-timeout (sigterm ∷ ss) s =
    ground (arith, on_signals-timeout ss (record s { stop_server = true }))
on_signals-timeout (other_signal ∷ ss) s = on_signals-timeout ss s

on_signals-closed : (ss : List Signal) (s : TimerServer) → (on_signals ss s).closed ≡ s.closed
unfolding on_signals
on_signals-closed [] s = refl
on_signals-closed (sigalrm ∷ ss) s = on_signals-closed ss (record s { timeout = true })
on_signals-closed (sigterm ∷ ss) s = on_signals-closed ss (record s { stop_server = true })
on_signals-closed (other_signal ∷ ss) s = on_signals-closed ss s

drop_client-Implements :
    (now fd last : ℕ) (s : TimerServer) (f : Table)
    → Implements now s.timer_lst f
    → f fd ≡ some last
    → (d : TimerServer) × (drop_client fd s ≡ some d)
      × (d.timeout ≡ (s.timeout || false))
      × (d.closed ≡ fd ∷ s.closed)
      × Implements now d.timer_lst (update fd none f)
unfolding drop_client
drop_client-Implements now fd last s f v e =
    let there : expire_of fd s.timer_lst ≡ some (last + 3 * timeslot) =
      ground (arith, v.times fd, e) in
    let found = expire_of-Found fd (last + 3 * timeslot) s.timer_lst there in
    (
      record s { timer_lst = del_timer (some fd) s.timer_lst; closed = fd ∷ s.closed },
      ground (arith, found.located),
      ground arith,
      refl,
      subst (λ l. Implements now l (update fd none f)) (sym (del_timer-remove fd s.timer_lst))
          (remove-Implements now fd last s.timer_lst f v e),
    )

extend_client-Implements :
    (now fd last : ℕ) (s : TimerServer) (f : Table)
    → Implements now s.timer_lst f
    → f fd ≡ some last
    → (d : TimerServer) × (extend_client now fd s ≡ some d)
      × (d.timeout ≡ (s.timeout || false))
      × (d.closed ≡ s.closed)
      × Implements now d.timer_lst (update fd (some now) f)
unfolding extend_client
extend_client-Implements now fd last s f v e =
    let there : expire_of fd s.timer_lst ≡ some (last + 3 * timeslot) =
      ground (arith, v.times fd, e) in
    let found = expire_of-Found fd (last + 3 * timeslot) s.timer_lst there in
    let past = v.past fd last e in
    let moved =
      set_expire-IsMoved fd (last + 3 * timeslot) (now + 3 * timeslot) s.timer_lst there v.sorted
        (omega arith) in
    let without = remove-Implements now fd last s.timer_lst f v e in
    let added =
      add_after-Implements now fd (remove fd s.timer_lst) (update fd none f) without
        (ground arith) in
    (
      record s {
        timer_lst = adjust_timer (some fd) (set_expire fd (now + 3 * timeslot) s.timer_lst);
      },
      ground (arith, found.located),
      ground arith,
      refl,
      subst (λ l. Implements now l (update fd (some now) f)) (sym (moved.0))
          (same_table (λ i. ground arith) added),
    )

pub on_input-Implements :
    (now : ℕ) (i : Input) (s : TimerServer) (f : Table)
    → Implements now s.timer_lst f
    → IsAllowed i f
    → (d : TimerServer) × (on_input now i s ≡ some d)
      × (d.timeout ≡ (s.timeout || rings i))
      × (d.closed ≡ closed_by i s.closed)
      × Implements now d.timer_lst (spec_input now i f)
unfolding on_input
on_input-Implements now (connection none) s f v a = absurd a
on_input-Implements now (connection (some fd)) s f v a =
    let t : UtilTimer = record { expire = now + 3 * timeslot; user_data = fd } in
    let added = add_after-Implements now fd s.timer_lst f v (a.1) in
    (
      record s { timer_lst = add_timer (some t) s.timer_lst },
      ground (arith, a.0),
      ground arith,
      refl,
      subst (λ l. Implements now l (update fd (some now) f))
          (sym (add_timer-add_after t s.timer_lst)) added,
    )
on_input-Implements now (signals none) s f v a = (s, refl, ground arith, refl, v)
on_input-Implements now (signals (some ss)) s f v a = (
  on_signals ss s,
  refl,
  on_signals-timeout ss s,
  on_signals-closed ss s,
  subst (λ l. Implements now l f) (sym (on_signals-timers ss s)) v,
)
on_input-Implements now (client fd bytes) s f v a =
    extend_client-Implements now fd (a.0) s f v (a.1)
on_input-Implements now (client fd ended) s f v a = drop_client-Implements now fd (a.0) s f v (a.1)
on_input-Implements now (client fd broken) s f v a = drop_client-Implements now fd (a.0) s f v (a.1)
on_input-Implements now (client fd would_block) s f v a = (s, refl, ground arith, refl, v)
on_input-Implements now no_input s f v a = (s, refl, ground arith, refl, v)
