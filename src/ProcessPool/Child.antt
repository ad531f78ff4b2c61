-- ===== src/ProcessPool/Child.antt =====
-- half_sync_half_async.h, `run_child`: the child accepts connections and serves its clients.
-- The type of the users and its operations `init` and `process` are parameters. `none` is an access
-- outside the array `users`, whose size is that of the list.
use linux_socket_test.Prelude.{
  ℕ, List, [], ◌∷◌, Option, none, some, Bool, true, if◌then◌else◌, set, get_elem?, ◌>>=◌, ◌⊎◌, inl,
  inr,
}
use linux_socket_test.ProcessPool.{Pool}
use linux_socket_test.ProcessPool.Parent.{
  Wait, ParentEnd, run_parent, Signal, sigchld, sigterm, sigint, other_signal,
}

-- `USER_PER_PROCESS`.
abbrev pub user_per_process : ℕ
user_per_process = 65536

-- What `recv` gives on the pipe to the parent: that a connection waits, EAGAIN, or an end or another
-- error.
pub data Received : Type 0 where
  notice would_block broken : Received

-- An event: on the pipe to the parent, with what `recv` and `accept` give; on the signal pipe, with
-- what `recv` gives; input from a client; or any other.
pub data ChildEvent : Type 0 where
  from_parent : Received → Option ℕ → ChildEvent
  child_signals : Option (List Signal) → ChildEvent
  client : ℕ → ChildEvent
  no_input : ChildEvent

unfoldable pub stop_of : Bool → List Signal → Bool
stop_of stop [] = stop
stop_of stop (sigterm ∷ ss) = stop_of true ss
stop_of stop (sigint ∷ ss) = stop_of true ss
stop_of stop (sigchld pids ∷ ss) = stop_of stop ss
stop_of stop (other_signal ∷ ss) = stop_of stop ss

pub record Child {ℓ} (T : Type ℓ) : Type ℓ where
  pub m_stop : Bool
  pub users : List T

pub data ChildWait : Type 0 where
  child_ready : List ChildEvent → ChildWait
  child_interrupted child_failed : ChildWait

pub data ChildEnd {ℓ} (T : Type ℓ) : Type ℓ where
  child_stopped child_failure child_running : Child T → ChildEnd T

-- `f` on `users[fd]`.
unfoldable pub update {ℓ} : {T : Type ℓ} → (T → T) → ℕ → Child T → Option (Child T)
update f fd c = elim (get_elem? c.users fd) [
  | none ↦ none
  | some u ↦ some (record c { users = set c.users fd (f u) })
]

module _ {ℓ} {T : Type ℓ} (init : ℕ → T → T) (process : T → T) where
  unfoldable pub on_child_event : ChildEvent → Child T → Option (Child T)
  on_child_event (from_parent notice (some connfd)) c = update (init connfd) connfd c
  on_child_event (from_parent would_block (some connfd)) c = update (init connfd) connfd c
  on_child_event (from_parent notice none) c = some c
  on_child_event (from_parent would_block none) c = some c
  on_child_event (from_parent broken accepted) c = some c
  on_child_event (child_signals none) c = some c
  on_child_event (child_signals (some ss)) c = some (record c { m_stop = stop_of c.m_stop ss })
  on_child_event (client sockfd) c = update process sockfd c
  on_child_event no_input c = some c

  unfoldable pub on_child_events : List ChildEvent → Child T → Option (Child T)
  on_child_events [] c = some c
  on_child_events (e ∷ es) c = do next ← on_child_event e c; on_child_events es next

  -- The loop of `run_child`; `child_running` is its state when the calls of `epoll_wait` run out.
  unfoldable pub run_child : List ChildWait → Child T → Option (ChildEnd T)
  run_child [] c = some (if c.m_stop then child_stopped c else child_running c)
  run_child (child_ready es ∷ ws) c =
      let rest = (do next ← on_child_events es c; run_child ws next) in
      if c.m_stop then some (child_stopped c) else rest
  run_child (child_interrupted ∷ ws) c =
      let rest = run_child ws c in if c.m_stop then some (child_stopped c) else rest
  run_child (child_failed ∷ ws) c = some (if c.m_stop then child_stopped c else child_failure c)

  unfoldable pub run : Pool → List Wait → List ChildWait → Child T → ParentEnd ⊎ Option (ChildEnd T)
  run p ws child_ws c = elim p.idx [
    | some idx ↦ inr (run_child child_ws c)
    | none ↦ inl (run_parent ws p)
  ]
