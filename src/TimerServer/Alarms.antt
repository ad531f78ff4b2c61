-- ===== src/TimerServer/Alarms.antt =====
-- list_timer.cpp: from the delivery of signals to what the main loop makes of them.
use linux_socket_test.Prelude.{
  ℕ, ◌≤◌, ◌≡◌, ap, ◌∙◌, List, [], ◌∷◌, ◌++◌, Option, none, some, Bool, true, false, ◌||◌, ◌==◌,
  if◌then◌else◌, arith, length, map, take, take_ge, ◌>>=◌,
}
use native.Mathlib.Decide.{ℕ_discrete}
use linux_socket_test.Signals
use linux_socket_test.Signals.{Process, setup_timer_signals, deliver_all}
use linux_socket_test.Signals.Delivery.{AllAre, of_timer, timer_signals_arrive}
use linux_socket_test.TimerServer.{
  TimerServer, Signal, sigalrm, sigterm, other_signal, signals, on_signals, on_input,
}

-- The `switch` on a byte of the pipe.
unfoldable pub signal_of : ℕ → Signal
signal_of b =
    if b == Signals.sigalrm then sigalrm else if b == Signals.sigterm then sigterm else other_signal

-- `recv` into an array of 1024 bytes; with nothing to read it is -1.
unfoldable pub recv_signals : List ℕ → Option (List Signal)
recv_signals [] = none
recv_signals (b ∷ bs) = some (map signal_of (take 1024 (b ∷ bs)))

unfoldable pub occurs : ℕ → List ℕ → Bool
occurs sig [] = false
occurs sig (s ∷ ss) = let rest = occurs sig ss in if s == sig then true else rest

-- The flags behind a list of signals, and nothing else is changed.
abbrev pub flagged : TimerServer → List ℕ → TimerServer
flagged s sigs = record s {
  timeout = s.timeout || occurs Signals.sigalrm sigs;
  stop_server = s.stop_server || occurs Signals.sigterm sigs;
}

on_signals-flagged :
    (sigs : List ℕ) (s : TimerServer)
    → AllAre of_timer sigs
    → on_signals (map signal_of sigs) s ≡ flagged s sigs
unfolding on_signals signal_of occurs
on_signals-flagged [] s h = ground arith
on_signals-flagged (sig ∷ sigs) s h = elim (ℕ_discrete sig Signals.sigalrm) [
  | yes e ↦ ground (arith, e, on_signals-flagged sigs (record s { timeout = true }) h.1)
  | no e ↦
      let e' : sig ≡ Signals.sigterm = ground (arith, e, h.0) in
      ground (arith, e', on_signals-flagged sigs (record s { stop_server = true }) h.1)
]

-- The signals as the loop gets them.
on_input-flagged :
    (sigs : List ℕ) (cur : ℕ) (s : TimerServer)
    → AllAre of_timer sigs
    → length sigs ≤ 1024
    → on_input cur (signals (recv_signals sigs)) s ≡ some (flagged s sigs)
unfolding on_input recv_signals on_signals
on_input-flagged [] cur s h short = ap some (on_signals-flagged [] s tt)
on_input-flagged (b ∷ bs) cur s h short = ap some (
    ap (λ l. on_signals (map signal_of l) s) (take_ge 1024 (b ∷ bs) short)
    ∙ on_signals-flagged (b ∷ bs) s h)

-- Where SIGALRM and SIGTERM arrive behind the set-up while the pipe is empty, as many as it has room
-- for and one `recv` takes, the main loop sees them all when it next reads the pipe: it then has to
-- handle its timers if there was a SIGALRM, and to stop if there was a SIGTERM.
pub alarms_seen :
    (p : Process) (sigs : List ℕ) (cur : ℕ) (s : TimerServer)
    → p.pipe ≡ []
    → AllAre of_timer sigs
    → length sigs ≤ p.room
    → length sigs ≤ 1024
    → (q : Process) × ((setup_timer_signals true true p >>= deliver_all sigs) ≡ some q)
      × (on_input cur (signals (recv_signals q.pipe)) s ≡ some (flagged s sigs))
alarms_seen p sigs cur s empty h room short =
    let (q, e, errno, pipe) = timer_signals_arrive p sigs h room in
    let bytes : q.pipe ≡ sigs = pipe ∙ ap (λ l. l ++ sigs) empty in
    (q, e, rw bytes (on_input-flagged sigs cur s h short))
