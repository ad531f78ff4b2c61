-- ===== src/ProcessPool/Safety.antt =====
-- What the parent does with the pipes to its children, over any history of events.
use linux_socket_test.Prelude.{
  ℕ, zero, suc, ◌+◌, ◌≡◌, refl, ap, List, [], ◌∷◌, none, some, Bool, true, false, ◌==◌,
  if◌then◌else◌, arith, set, replicate, Option-cases, Bool-cases, inl, inr,
}
use linux_socket_test.ProcessPool.{
  Process, no_process, Action, sent, closed, killed, Pool, pid_at, fork_children, new,
}
use linux_socket_test.ProcessPool.Parent.{
  next_child, on_connection, reap_at, reap_from, reap_all, on_sigchld, kill_at, kill_from, Signal,
  sigchld, sigterm, sigint, other_signal, on_signal, on_signals, Event, connection, signals,
  other_event, on_event, on_events, Wait, ready, interrupted, failed, ParentEnd, stopped, failure,
  running, run_parent,
}

-- Whether the pipe of a child has been closed.
unfoldable pub closed_in : ℕ → List Action → Bool
closed_in i [] = false
closed_in i (sent j ∷ l) = closed_in i l
closed_in i (killed pid ∷ l) = closed_in i l
closed_in i (closed j ∷ l) = let rest = closed_in i l in if i == j then true else rest

-- No pipe is written to or closed again after it has been closed.
abbrev pub IsSafe : List Action → Type 0
IsSafe [] = Unit
IsSafe (sent j ∷ l) = (closed_in j l ≡ false) × IsSafe l
IsSafe (closed j ∷ l) = (closed_in j l ≡ false) × IsSafe l
IsSafe (killed pid ∷ l) = IsSafe l

-- A child whose pipe is closed has no pid any more.
pub record Inv (p : Pool) : Type 0 where
  pub ended : (i : ℕ) → closed_in i p.log ≡ true → pid_at p.sub_process i ≡ none
  pub safe : IsSafe p.log

open_if_alive :
    (p : Pool) (i q : ℕ) → Inv p → pid_at p.sub_process i ≡ some q → closed_in i p.log ≡ false
open_if_alive p i q v e = elim (Bool-cases (closed_in i p.log)) [
  | inl c ↦ absurd (ground (arith, v.ended i c, e))
  | inr c ↦ c
]

-- Forgetting a pid, inside the array or not.
pub pid_at-set :
    (ps : List Process) (i j : ℕ)
    → pid_at (set ps i no_process) j ≡ (if j == i then none else pid_at ps j)
pid_at-set [] i j = ground arith
pid_at-set (x ∷ ps) zero zero = refl
pid_at-set (x ∷ ps) zero (suc j) = ground arith
pid_at-set (x ∷ ps) (suc i) zero = ground arith
pid_at-set (x ∷ ps) (suc i) (suc j) = ground (arith, pid_at-set ps i j)

on_connection-Inv : (p : Pool) → Inv p → Inv ((on_connection p).1)
unfolding on_connection closed_in
on_connection-Inv p v =
    let i = next_child p.process_number p.sub_process p.process_number p.counter p.counter in
    elim (Option-cases (pid_at p.sub_process i)) [
      | inl e ↦ rw (e, on_connection) (record { ended = v.ended; safe = v.safe })
      | inr (q, e) ↦
          rw (e, on_connection)
            (record { ended = v.ended; safe = (open_if_alive p i q v e, v.safe) })
    ]

reap_at-Inv : (pid i : ℕ) (p : Pool) → Inv p → Inv (reap_at pid i p)
unfolding reap_at closed_in
reap_at-Inv pid i p v = elim (Option-cases (pid_at p.sub_process i)) [
  | inl e ↦ rw (reap_at, e) v
  | inr (q, e) ↦ elim (Bool-cases (q == pid)) [
    | inl same ↦
        rw (reap_at, e, same)
          (record {
            ended = λ j c. rw (pid_at-set p.sub_process i j) (ground (arith, v.ended j, c));
            safe = (open_if_alive p i q v e, v.safe);
          })
    | inr other ↦ rw (reap_at, e, other) v
  ]
]

reap_from-Inv : (pid k i : ℕ) (p : Pool) → Inv p → Inv (reap_from pid k i p)
unfolding reap_from
reap_from-Inv pid zero i p v = v
reap_from-Inv pid (suc k) i p v =
    reap_from-Inv pid k (i + 1) (reap_at pid i p) (reap_at-Inv pid i p v)

reap_all-Inv : (pids : List ℕ) (p : Pool) → Inv p → Inv (reap_all pids p)
unfolding reap_all
reap_all-Inv [] p v = v
reap_all-Inv (pid ∷ pids) p v =
    reap_all-Inv pids (reap_from pid p.process_number 0 p)
      (reap_from-Inv pid p.process_number 0 p v)

kill_at-Inv : (i : ℕ) (p : Pool) → Inv p → Inv (kill_at i p)
unfolding kill_at closed_in
kill_at-Inv i p v = elim (Option-cases (pid_at p.sub_process i)) [
  | inl e ↦ rw (kill_at, e) v
  | inr (q, e) ↦ rw (kill_at, e) (record { ended = v.ended; safe = v.safe })
]

kill_from-Inv : (k i : ℕ) (p : Pool) → Inv p → Inv (kill_from k i p)
unfolding kill_from
kill_from-Inv zero i p v = v
kill_from-Inv (suc k) i p v = kill_from-Inv k (i + 1) (kill_at i p) (kill_at-Inv i p v)

on_signal-Inv : (s : Signal) (p : Pool) → Inv p → Inv (on_signal s p)
unfolding on_signal on_sigchld
on_signal-Inv (sigchld pids) p v =
    let w = reap_all-Inv pids p v in record { ended = w.ended; safe = w.safe }
on_signal-Inv sigterm p v = kill_from-Inv p.process_number 0 p v
on_signal-Inv sigint p v = kill_from-Inv p.process_number 0 p v
on_signal-Inv other_signal p v = v

on_signals-Inv : (ss : List Signal) (p : Pool) → Inv p → Inv (on_signals ss p)
unfolding on_signals
on_signals-Inv [] p v = v
on_signals-Inv (s ∷ ss) p v = on_signals-Inv ss (on_signal s p) (on_signal-Inv s p v)

on_event-Inv : (e : Event) (p : Pool) → Inv p → Inv ((on_event e p).1)
unfolding on_event
on_event-Inv connection p v = on_connection-Inv p v
on_event-Inv (signals none) p v = v
on_event-Inv (signals (some ss)) p v = on_signals-Inv ss p v
on_event-Inv other_event p v = v

pub on_events-Inv : (es : List Event) (p : Pool) → Inv p → Inv (on_events es p)
unfolding on_events
on_events-Inv [] p v = v
on_events-Inv (e ∷ es) p v =
    let w = on_event-Inv e p v in
    elim (Bool-cases ((on_event e p).0)) [
      | inl leave ↦ rw leave w
      | inr stay ↦ rw stay (on_events-Inv es ((on_event e p).1) w)
    ]

abbrev pub final : ParentEnd → Pool
final (stopped p) = p
final (failure p) = p
final (running p) = p

run_parent-Inv : (ws : List Wait) (p : Pool) → Inv p → Inv (final (run_parent ws p))
unfolding run_parent
run_parent-Inv [] p v = ground (arith, v)
run_parent-Inv (ready es ∷ ws) p v =
    ground (arith, v, run_parent-Inv ws (on_events es p) (on_events-Inv es p v))
run_parent-Inv (interrupted ∷ ws) p v = ground (arith, v, run_parent-Inv ws p v)
run_parent-Inv (failed ∷ ws) p v = ground (arith, v)

fork_children-log :
    (k i : ℕ) (forks : List ℕ) (p q : Pool) → fork_children k i forks p ≡ some q → q.log ≡ p.log
unfolding fork_children
fork_children-log zero i forks p q h = ground (arith, h)
fork_children-log (suc k) i [] p q h = ground (arith, h)
fork_children-log (suc k) i (ret ∷ forks) p q h = ground (
  arith,
  h,
  fork_children-log k (i + 1) forks
      (record p { sub_process = set p.sub_process i (record { pid = some ret }) }) q,
)

-- Whatever connections and signals arrive, in any order and in any batches, and whatever `waitpid`
-- reports, a parent that has just been created never writes to the pipe of a child, or closes it,
-- after it has closed that pipe.
pub run_parent-IsSafe :
    (process_number : ℕ) (forks : List ℕ) (p : Pool) (ws : List Wait)
    → new process_number forks ≡ some p
    → IsSafe ((final (run_parent ws p)).log)
unfolding new closed_in
run_parent-IsSafe n forks p ws h =
    let empty : p.log ≡ [] = ground (
      arith,
      h,
      fork_children-log n 0 forks
          (record {
            process_number = n;
            idx = none;
            stop = false;
            sub_process = replicate n no_process;
            counter = 0;
            log = [];
          })
          p,
    ) in
    (run_parent-Inv ws p (record {
      ended = λ i c. absurd (ground (arith, c, ap (closed_in i) empty));
      safe = rw empty tt;
    })).safe
