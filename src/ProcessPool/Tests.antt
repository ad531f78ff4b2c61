-- ===== src/ProcessPool/Tests.antt =====
-- Runs of the process pool, and its theorems at a pool of two or three processes.
use linux_socket_test.Prelude.{
  ℕ, ◌+◌, ◌*◌, ◌<◌, ◌≡◌, refl, List, [], ◌∷◌, none, some, true, false, arith, get_elem?, replicate,
}
use linux_socket_test.ProcessPool.{sent, closed, Pool, new, fork_children}
use linux_socket_test.ProcessPool.Parent.{
  sigchld, sigterm, connection, signals, on_events, on_event, on_connection, next_child, on_signals,
  on_signal, on_sigchld, reap_all, reap_from, reap_at, all_ended, kill_from, kill_at, Wait, ready,
  run_parent,
}
use linux_socket_test.ProcessPool.Safety.{IsSafe, final, run_parent-IsSafe}
use linux_socket_test.ProcessPool.Fairness.{sent_to, connections_fair}
use linux_socket_test.ProcessPool.Reaping.{is_any}
use linux_socket_test.ProcessPool.Shutdown.{
  is_reported, killed_pids, is_stopped, reports, run_parent_terminates,
}
use linux_socket_test.ProcessPool.Child.{
  notice, from_parent, child_signals, client, Child, on_child_event, on_child_events, update,
  stop_of, ChildEvent,
}
use linux_socket_test.ProcessPool.Users.{
  StaysIf, all_fit, replay, on_child_events_bounds, on_child_events_isolates,
}
use linux_socket_test.ProcessPool.Ending.{has_last}

-- The first child has ended, the second runs.
abbrev two : Pool
two = record {
  process_number = 2;
  idx = none;
  stop = false;
  sub_process = record { pid = some 70 } ∷ record { pid = some 71 } ∷ [];
  counter = 0;
  log = [];
}

created : new 2 (70 ∷ 71 ∷ []) ≡ some two
unfolding new fork_children
created = refl

abbrev busy : List Wait
busy =
    ready (connection ∷ signals (some (sigchld (70 ∷ []) ∷ [])) ∷ connection ∷ connection ∷ [])
    ∷ ready (signals (some (sigchld (71 ∷ []) ∷ [])) ∷ [])
    ∷ []

ended : (final (run_parent busy two)).log ≡ closed 1 ∷ sent 1 ∷ sent 1 ∷ closed 0 ∷ sent 0 ∷ []
unfolding run_parent on_events on_event on_connection next_child on_signals on_signal on_sigchld
    reap_all reap_from reap_at all_ended
ended = refl

run_parent-IsSafe_example : IsSafe ((final (run_parent busy two)).log)
run_parent-IsSafe_example = run_parent-IsSafe 2 (70 ∷ 71 ∷ []) two busy created

abbrev one_left : Pool
one_left = record {
  process_number = 3;
  idx = none;
  stop = false;
  sub_process = record { pid = none } ∷ record { pid = some 71 } ∷ record { pid = none } ∷ [];
  counter = 2;
  log = [];
}

connections_fair_example :
    sent_to 1 one_left.log < sent_to 1 (on_events (replicate 3 connection) one_left).log
connections_fair_example = connections_fair one_left 1 (omega arith) (omega arith) refl

reported_both :
    (q : ℕ)
    → is_any (some q) (killed_pids (on_signal sigterm two).log) ≡ true
    → is_reported (some q) ((71 ∷ []) ∷ (70 ∷ []) ∷ []) ≡ true
unfolding on_signal kill_from kill_at killed_pids is_any is_reported
reported_both q h = ground (arith, h)

run_parent_terminates_example :
    is_stopped (
      run_parent
        (ready (signals (some (sigterm ∷ [])) ∷ []) ∷ reports ((71 ∷ []) ∷ (70 ∷ []) ∷ []) [])
        two)
    ≡ true
run_parent_terminates_example =
    run_parent_terminates two (71 ∷ []) ((70 ∷ []) ∷ []) [] reported_both

abbrev start : ℕ → ℕ → ℕ
start fd u = 100 * fd

abbrev serve : ℕ → ℕ
serve u = u + 1

abbrev child : Child ℕ
child = record { m_stop = false; users = 0 ∷ 0 ∷ 0 ∷ [] }

abbrev batch : List ChildEvent
batch = from_parent notice (some 1) ∷ client 1 ∷ child_signals (some (sigterm ∷ [])) ∷ client 1 ∷ []

-- The descriptor 3 is outside the array.
on_child_events_bounds_example :
    StaysIf
      (all_fit (from_parent notice (some 3) ∷ []) 3)
      child
      (on_child_events start serve (from_parent notice (some 3) ∷ []) child)
on_child_events_bounds_example =
    on_child_events_bounds start serve (from_parent notice (some 3) ∷ []) child

abbrev served : Child ℕ
served = record { m_stop = true; users = 0 ∷ 102 ∷ 0 ∷ [] }

lasts : has_last start serve batch ≡ true
unfolding has_last stop_of
lasts = refl

fits : all_fit batch 3 ≡ true
unfolding all_fit
fits = refl

steps : on_child_events start serve batch child ≡ some served
unfolding on_child_events on_child_event update stop_of
steps = refl

on_child_events_isolates_example : get_elem? served.users 1 ≡ some (replay start serve 1 batch 0)
on_child_events_isolates_example =
    on_child_events_isolates start serve batch child served 1 0 steps refl
