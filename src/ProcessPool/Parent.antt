-- ===== src/ProcessPool/Parent.antt =====
-- half_sync_half_async.h, `run_parent`: the choice of a child for a connection, the children that
-- end, and the signals.
use linux_socket_test.Prelude.{
  ℕ, zero, suc, ◌+◌, ◌%◌, List, [], ◌∷◌, Option, none, some, Bool, true, false, not, ◌&&◌, ◌==◌,
  if◌then◌else◌, set,
}
use linux_socket_test.ProcessPool.{
  Process, no_process, sent, closed, killed, Pool, pid_at, is_alive,
}

-- The `do` loop that looks for a child from `start` on, on fuel: the index that it ends with.
unfoldable pub next_child : ℕ → List Process → ℕ → ℕ → ℕ → ℕ
next_child zero ps n start i = i
next_child (suc fuel) ps n start i = elim (is_alive (pid_at ps i)) [
  | true ↦ i
  | false ↦ elim ((i + 1) % n == start) [
    | true ↦ (i + 1) % n
    | false ↦ next_child fuel ps n start ((i + 1) % n)
  ]
]

-- A new connection. The flag says whether the loop over the events is left.
unfoldable pub on_connection : Pool → Bool × Pool
on_connection p =
    let n = p.process_number in
    let i = next_child n p.sub_process n p.counter p.counter in
    if is_alive (pid_at p.sub_process i)
    then (false, record p { counter = (i + 1) % n; log = sent i ∷ p.log })
    else (true, record p { stop = true })

-- A child that has ended, if it is the one at `i`: its pipe is closed and its pid forgotten.
unfoldable pub reap_at : ℕ → ℕ → Pool → Pool
reap_at pid i p = elim (pid_at p.sub_process i) [
  | none ↦ p
  | some q ↦
      if q == pid
      then record p { sub_process = set p.sub_process i no_process; log = closed i ∷ p.log }
      else p
]

-- The loop over the last `k` children, from `i` on.
unfoldable pub reap_from : ℕ → ℕ → ℕ → Pool → Pool
reap_from pid zero i p = p
reap_from pid (suc k) i p = reap_from pid k (i + 1) (reap_at pid i p)

-- The loop over the pids that `waitpid` gives.
unfoldable pub reap_all : List ℕ → Pool → Pool
reap_all [] p = p
reap_all (pid ∷ pids) p = reap_all pids (reap_from pid p.process_number 0 p)

-- Whether all of the last `k` children, from `i` on, have ended.
unfoldable pub all_ended : List Process → ℕ → ℕ → Bool
all_ended ps zero i = true
all_ended ps (suc k) i = let rest = all_ended ps k (i + 1) in not (is_alive (pid_at ps i)) && rest

unfoldable pub on_sigchld : List ℕ → Pool → Pool
on_sigchld pids p =
    let q = reap_all pids p in record q { stop = all_ended q.sub_process q.process_number 0 }

unfoldable pub kill_at : ℕ → Pool → Pool
kill_at i p = elim (pid_at p.sub_process i) [
  | none ↦ p
  | some pid ↦ record p { log = killed pid ∷ p.log }
]

-- The loop that sends SIGTERM to the last `k` children, from `i` on, as far as they run.
unfoldable pub kill_from : ℕ → ℕ → Pool → Pool
kill_from zero i p = p
kill_from (suc k) i p = kill_from k (i + 1) (kill_at i p)

-- A signal; for SIGCHLD, with the pids that `waitpid` gives.
pub data Signal : Type 0 where
  sigchld : List ℕ → Signal
  sigterm sigint other_signal : Signal

unfoldable pub on_signal : Signal → Pool → Pool
on_signal (sigchld pids) p = on_sigchld pids p
on_signal sigterm p = kill_from p.process_number 0 p
on_signal sigint p = kill_from p.process_number 0 p
on_signal other_signal p = p

unfoldable pub on_signals : List Signal → Pool → Pool
on_signals [] p = p
on_signals (s ∷ ss) p = on_signals ss (on_signal s p)

-- An event: on the listening socket, on the signal pipe with what `recv` gives (`none` where it
-- gives nothing), or any other.
pub data Event : Type 0 where
  connection : Event
  signals : Option (List Signal) → Event
  other_event : Event

unfoldable pub on_event : Event → Pool → Bool × Pool
on_event connection p = on_connection p
on_event (signals none) p = (false, p)
on_event (signals (some ss)) p = (false, on_signals ss p)
on_event other_event p = (false, p)

unfoldable pub on_events : List Event → Pool → Pool
on_events [] p = p
on_events (e ∷ es) p =
    let (leave, q) = on_event e p in let rest = on_events es q in if leave then q else rest

-- What `epoll_wait` gives.
pub data Wait : Type 0 where
  ready : List Event → Wait
  interrupted failed : Wait

pub data ParentEnd : Type 0 where
  stopped failure running : Pool → ParentEnd

-- The loop of `run_parent`; `running` is its state when the calls of `epoll_wait` run out.
unfoldable pub run_parent : List Wait → Pool → ParentEnd
run_parent [] p = if p.stop then stopped p else running p
run_parent (ready es ∷ ws) p =
    let rest = run_parent ws (on_events es p) in if p.stop then stopped p else rest
run_parent (interrupted ∷ ws) p = let rest = run_parent ws p in if p.stop then stopped p else rest
run_parent (failed ∷ ws) p = if p.stop then stopped p else failure p
