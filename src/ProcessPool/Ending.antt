-- ===== src/ProcessPool/Ending.antt =====
-- half_sync_half_async.h, `run_child`: a signal ends the child.
use linux_socket_test.Prelude.{
  ℕ, ◌≡◌, refl, List, [], ◌∷◌, none, some, Bool, true, false, ◌||◌, arith, get_elem?, length,
  Bool-cases, Option-cases, inl, inr,
}
use linux_socket_test.ProcessPool.Parent.{Signal, sigchld, sigterm, sigint, other_signal}
use linux_socket_test.ProcessPool.Child.{
  notice, would_block, broken, ChildEvent, from_parent, child_signals, client, no_input, stop_of,
  Child, ChildWait, child_ready, child_interrupted, child_failed, child_stopped, update,
  on_child_event, on_child_events, run_child,
}
use linux_socket_test.ProcessPool.Users.{all_fit, on_child_events_bounds}

module _ {ℓ} {T : Type ℓ} (init : ℕ → T → T) (process : T → T) where
  abbrev pub is_last : ChildEvent → Bool
  is_last (from_parent received accepted) = false
  is_last (child_signals none) = false
  is_last (child_signals (some ss)) = stop_of false ss
  is_last (client fd) = false
  is_last no_input = false

  stop_of-true : (ss : List Signal) → stop_of true ss ≡ true
  unfolding stop_of
  stop_of-true [] = refl
  stop_of-true (sigterm ∷ ss) = stop_of-true ss
  stop_of-true (sigint ∷ ss) = stop_of-true ss
  stop_of-true (sigchld pids ∷ ss) = stop_of-true ss
  stop_of-true (other_signal ∷ ss) = stop_of-true ss

  update-stop : (f : T → T) (fd : ℕ) (c d : Child T) → update f fd c ≡ some d → d.m_stop ≡ c.m_stop
  unfolding update
  update-stop f fd c d h = elim (Option-cases (get_elem? c.users fd)) [
    | inl gone ↦ absurd (ground (arith, h, gone))
    | inr (x, found) ↦ ground (arith, h, found)
  ]

  on_child_event-stop :
      (ev : ChildEvent) (c d : Child T)
      → on_child_event init process ev c ≡ some d
      → c.m_stop || is_last ev ≡ true
      → d.m_stop ≡ true
  unfolding on_child_event
  on_child_event-stop (from_parent notice (some i)) c d h e =
      ground (arith, e, update-stop (init i) i c d h)
  on_child_event-stop (from_parent would_block (some i)) c d h e =
      ground (arith, e, update-stop (init i) i c d h)
  on_child_event-stop (from_parent notice none) c d h e = ground (arith, h, e)
  on_child_event-stop (from_parent would_block none) c d h e = ground (arith, h, e)
  on_child_event-stop (from_parent broken accepted) c d h e = ground (arith, h, e)
  on_child_event-stop (child_signals none) c d h e = ground (arith, h, e)
  on_child_event-stop (child_signals (some ss)) c d h e = ground (arith, h, e, stop_of-true ss)
  on_child_event-stop (client i) c d h e = ground (arith, e, update-stop process i c d h)
  on_child_event-stop no_input c d h e = ground (arith, h, e)

  -- Whether one of the events is a SIGTERM or a SIGINT.
  unfoldable pub has_last : List ChildEvent → Bool
  has_last [] = false
  has_last (ev ∷ es) = is_last ev || has_last es

  on_child_events-stop :
      (es : List ChildEvent) (c d : Child T)
      → on_child_events init process es c ≡ some d
      → c.m_stop || has_last es ≡ true
      → d.m_stop ≡ true
  unfolding on_child_events has_last
  on_child_events-stop [] c d h e = ground (arith, h, e)
  on_child_events-stop (ev ∷ es) c d h e = elim (Option-cases (on_child_event init process ev c)) [
    | inl gone ↦ absurd (ground (arith, h, gone))
    | inr (c', step) ↦
        on_child_events-stop es c' d (ground (arith, h, step))
          (elim (Bool-cases (c.m_stop || is_last ev)) [
            | inl now ↦ ground (arith, on_child_event-stop ev c c' step now)
            | inr later ↦ ground (arith, e, later)
          ])
  ]

  run_child-stopped :
      (ws : List ChildWait) (c : Child T)
      → c.m_stop ≡ true
      → run_child init process ws c ≡ some (child_stopped c)
  unfolding run_child
  run_child-stopped [] c h = ground (arith, h)
  run_child-stopped (child_ready es ∷ ws) c h = ground (arith, h)
  run_child-stopped (child_interrupted ∷ ws) c h = ground (arith, h)
  run_child-stopped (child_failed ∷ ws) c h = ground (arith, h)

  -- A child that is sent SIGTERM or SIGINT handles the other events of the same call of `epoll_wait`,
  -- and then ends, whatever comes later, provided that the descriptors fit the array of users.
  pub run_child_terminates :
      (es : List ChildEvent) (ws : List ChildWait) (c : Child T)
      → has_last es ≡ true
      → all_fit es (length c.users) ≡ true
      → c.m_stop ≡ false
      → (d : Child T) × (on_child_events init process es c ≡ some d)
        × (run_child init process (child_ready es ∷ ws) c ≡ some (child_stopped d))
  unfolding run_child
  run_child_terminates es ws c last fit start = elim (on_child_events_bounds init process es c) [
    | inl (h, d, steps, size) ↦
        let stop = on_child_events-stop es c d steps (ground (arith, last)) in
        (d, steps, ground (arith, steps, start, run_child-stopped ws d stop))
    | inr (h, gone) ↦ absurd (ground (arith, h, fit))
  ]
