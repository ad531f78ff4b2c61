-- ===== src/ProcessPool/Shutdown.antt =====
-- How the pool ends: SIGTERM goes to every child that runs, and the parent stops when all have ended.
use linux_socket_test.Prelude.{
  ℕ, zero, suc, ◌+◌, ◌≤◌, ◌<◌, ◌≡◌, refl, ap, sym, ◌∙◌, List, [], ◌∷◌, Option, some, Bool, true,
  false, ◌||◌, arith,
}
use native.Mathlib.Decide.{ℕ_discrete}
use linux_socket_test.ProcessPool.{Action, sent, closed, killed, Pool, pid_at}
use linux_socket_test.ProcessPool.Parent.{
  on_sigchld, kill_at, kill_from, sigchld, sigterm, on_signal, on_signals, signals, on_event,
  on_events, Wait, ready, interrupted, failed, stopped, failure, running, ParentEnd, run_parent,
}
use linux_socket_test.ProcessPool.Reaping.{is_any, on_sigchld_stops, on_sigchld-number, still_known}

-- The pids that SIGTERM has been sent to.
unfoldable pub killed_pids : List Action → List ℕ
killed_pids [] = []
killed_pids (killed pid ∷ l) = pid ∷ killed_pids l
killed_pids (sent i ∷ l) = killed_pids l
killed_pids (closed i ∷ l) = killed_pids l

kill_at-kept :
    (i : ℕ) (p : Pool)
    → ((kill_at i p).sub_process ≡ p.sub_process)
      × ((kill_at i p).process_number ≡ p.process_number)
      × ((kill_at i p).stop ≡ p.stop)
unfolding kill_at
kill_at-kept i p = ground arith

is_any-kill_at :
    (i : ℕ) (p : Pool) (x : Option ℕ)
    → is_any x (killed_pids p.log) ≡ true
    → is_any x (killed_pids (kill_at i p).log) ≡ true
unfolding kill_at is_any killed_pids
is_any-kill_at i p x h = ground (arith, h)

killed_pids-kill_at :
    (i q : ℕ) (p : Pool)
    → pid_at p.sub_process i ≡ some q
    → is_any (some q) (killed_pids (kill_at i p).log) ≡ true
unfolding kill_at is_any killed_pids
killed_pids-kill_at i q p e = ground (arith, e)

-- Every child that runs is sent SIGTERM, and its pid stays among those.
kill_from-all :
    (k i : ℕ) (p : Pool)
    → ((kill_from k i p).sub_process ≡ p.sub_process)
      × ((kill_from k i p).process_number ≡ p.process_number)
      × ((kill_from k i p).stop ≡ p.stop)
      × ((x : Option ℕ)
          → is_any x (killed_pids p.log) ≡ true
          → is_any x (killed_pids (kill_from k i p).log) ≡ true)
      × ((j q : ℕ)
          → i ≤ j
          → j < i + k
          → pid_at p.sub_process j ≡ some q
          → is_any (some q) (killed_pids (kill_from k i p).log) ≡ true)
unfolding kill_from
kill_from-all zero i p = (refl, refl, refl, λ x h. h, λ j q a b e. absurd (omega arith))
kill_from-all (suc k) i p =
    let (children, number, stop) = kill_at-kept i p in
    let (children', number', stop', monotone, ih) = kill_from-all k (i + 1) (kill_at i p) in
    (
      children' ∙ children,
      number' ∙ number,
      stop' ∙ stop,
      λ x h. monotone x (is_any-kill_at i p x h),
      λ j q a b e. elim (ℕ_discrete j i) [
        | yes same ↦
            monotone (some q) (killed_pids-kill_at i q p (ap (pid_at p.sub_process) (sym same) ∙ e))
        | no other ↦ ih j q (ground arith) (omega arith) (ap (λ c. pid_at c j) children ∙ e)
      ],
    )

run_parent-stopped : (ws : List Wait) (p : Pool) → p.stop ≡ true → run_parent ws p ≡ stopped p
unfolding run_parent
run_parent-stopped [] p h = ground (arith, h)
run_parent-stopped (ready es ∷ ws) p h = ground (arith, h)
run_parent-stopped (interrupted ∷ ws) p h = ground (arith, h)
run_parent-stopped (failed ∷ ws) p h = ground (arith, h)

abbrev pub is_stopped : ParentEnd → Bool
is_stopped (stopped p) = true
is_stopped (failure p) = false
is_stopped (running p) = false

-- A SIGCHLD for each of these lists of pids, in a call of `epoll_wait` of its own.
abbrev pub reports : List (List ℕ) → List Wait → List Wait
reports [] ws = ws
reports (pids ∷ rounds) ws = ready (signals (some (sigchld pids ∷ [])) ∷ []) ∷ reports rounds ws

unfoldable pub is_reported : Option ℕ → List (List ℕ) → Bool
is_reported x [] = false
is_reported x (pids ∷ rounds) = is_any x pids || is_reported x rounds

unreported_later :
    (pids : List ℕ) (rounds : List (List ℕ)) (q : ℕ)
    → is_any (some q) pids ≡ false
    → is_reported (some q) (pids ∷ rounds) ≡ true
    → is_reported (some q) rounds ≡ true
unfolding is_reported
unreported_later pids rounds q e h = ground (arith, e, h)

reports_stop :
    (pids : List ℕ) (rounds : List (List ℕ)) (ws : List Wait) (p : Pool)
    → ((i q : ℕ)
        → i < p.process_number
        → pid_at p.sub_process i ≡ some q
        → is_reported (some q) (pids ∷ rounds) ≡ true)
    → is_stopped (run_parent (reports (pids ∷ rounds) ws) p) ≡ true
unfolding run_parent on_events on_event on_signals on_signal is_reported
reports_stop pids [] ws p h =
    let q = on_sigchld pids p in
    let end =
      run_parent-stopped ws q
        ((on_sigchld_stops pids p).1 (λ i x b e. ground (arith, h i x b e))) in
    ground (arith, end)
reports_stop pids (pids' ∷ rounds) ws p h =
    let q = on_sigchld pids p in
    let ih = reports_stop pids' rounds ws q (λ i x b e.
      let known : i < p.process_number = omega (arith, b, on_sigchld-number pids p) in
      let (before, unreported) = still_known pids p i x known e in
      unreported_later pids (pids' ∷ rounds) x unreported (h i x known before)) in
    ground (arith, ih)

-- After SIGTERM, a parent stops once the pids of the children that it has killed are reported, in any
-- number of SIGCHLD signals and in any order.
pub run_parent_terminates :
    (p : Pool) (pids : List ℕ) (rounds : List (List ℕ)) (ws : List Wait)
    → ((q : ℕ)
        → is_any (some q) (killed_pids (on_signal sigterm p).log) ≡ true
        → is_reported (some q) (pids ∷ rounds) ≡ true)
    → is_stopped
        (run_parent (ready (signals (some (sigterm ∷ [])) ∷ []) ∷ reports (pids ∷ rounds) ws) p)
      ≡ true
unfolding run_parent on_events on_event on_signals on_signal
run_parent_terminates p pids rounds ws h =
    let q = on_signal sigterm p in
    let (children, number, stop, monotone, all) = kill_from-all p.process_number 0 p in
    let end : is_stopped (run_parent (reports (pids ∷ rounds) ws) q) ≡ true =
      reports_stop pids rounds ws q (λ i x b e. h x (
        all i x (omega arith) (omega (arith, b, number))
          (ap (λ c. pid_at c i) (sym children) ∙ e))) in
    ground (arith, end)
