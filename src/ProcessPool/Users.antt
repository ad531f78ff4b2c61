-- ===== src/ProcessPool/Users.antt =====
-- half_sync_half_async.h, `run_child`: each descriptor is served by its own user, and the array of
-- users is left exactly where a descriptor is too large.
use linux_socket_test.Prelude.{
  ℕ, zero, suc, ◌≡◌, refl, ◌∙◌, List, [], ◌∷◌, Option, none, some, Bool, true, false, ◌&&◌, ◌⊎◌,
  ltb, ◌==◌, if◌then◌else◌, arith, set, get_elem?, length, length-set, Option-cases, inl, inr,
}
use linux_socket_test.ProcessPool.Child.{
  notice, would_block, broken, ChildEvent, from_parent, child_signals, client, no_input, stop_of,
  Child, update, on_child_event, on_child_events,
}

-- The user that an event goes to.
abbrev pub target : ChildEvent → Option ℕ
target (from_parent notice accepted) = accepted
target (from_parent would_block accepted) = accepted
target (from_parent broken accepted) = none
target (child_signals ss) = none
target (client fd) = some fd
target no_input = none

abbrev pub fits : Option ℕ → ℕ → Bool
fits none n = true
fits (some fd) n = ltb fd n

abbrev pub is_for : ℕ → Option ℕ → Bool
is_for fd none = false
is_for fd (some i) = i == fd

unfoldable pub all_fit : List ChildEvent → ℕ → Bool
all_fit [] n = true
all_fit (e ∷ es) n = fits (target e) n && all_fit es n

get_elem?-cases {ℓ} :
    {T : Type ℓ} (xs : List T) (i : ℕ)
    → ((ltb i (length xs) ≡ true) × (x : T) × (get_elem? xs i ≡ some x))
      ⊎ ((ltb i (length xs) ≡ false) × (get_elem? xs i ≡ none))
get_elem?-cases [] i = inr (ground arith, refl)
get_elem?-cases (x ∷ xs) zero = inl (ground arith, x, refl)
get_elem?-cases (x ∷ xs) (suc i) = elim (get_elem?-cases xs i) [
  | inl (h, y, e) ↦ inl (ground (arith, h), y, e)
  | inr (h, e) ↦ inr (ground (arith, h), e)
]

-- Either the test holds and a step keeps the size of the array, or it fails and the array is left.
abbrev pub StaysIf {ℓ} : {T : Type ℓ} → Bool → Child T → Option (Child T) → Type ℓ
StaysIf {T = T} b c after =
    ((b ≡ true) × (d : Child T) × (after ≡ some d) × (length d.users ≡ length c.users))
    ⊎ ((b ≡ false) × (after ≡ none))

module _ {ℓ} {T : Type ℓ} (init : ℕ → T → T) (process : T → T) where
  update-StaysIf :
      (f : T → T) (fd : ℕ) (c : Child T) → StaysIf (ltb fd (length c.users)) c (update f fd c)
  unfolding update
  update-StaysIf f fd c = elim (get_elem?-cases c.users fd) [
    | inl (h, u, e) ↦ inl (
      h,
      record c { users = set c.users fd (f u) },
      ground (arith, e),
      length-set c.users fd (f u),
    )
    | inr (h, e) ↦ inr (h, ground (arith, e))
  ]

  on_child_event-StaysIf :
      (e : ChildEvent) (c : Child T)
      → StaysIf (fits (target e) (length c.users)) c (on_child_event init process e c)
  unfolding on_child_event
  on_child_event-StaysIf (from_parent notice (some fd)) c = update-StaysIf (init fd) fd c
  on_child_event-StaysIf (from_parent would_block (some fd)) c = update-StaysIf (init fd) fd c
  on_child_event-StaysIf (from_parent notice none) c = inl (refl, c, refl, refl)
  on_child_event-StaysIf (from_parent would_block none) c = inl (refl, c, refl, refl)
  on_child_event-StaysIf (from_parent broken accepted) c = inl (refl, c, refl, refl)
  on_child_event-StaysIf (child_signals none) c = inl (refl, c, refl, refl)
  on_child_event-StaysIf (child_signals (some ss)) c =
      inl (refl, record c { m_stop = stop_of c.m_stop ss }, refl, refl)
  on_child_event-StaysIf (client fd) c = update-StaysIf process fd c
  on_child_event-StaysIf no_input c = inl (refl, c, refl, refl)

  -- The events of one call of `epoll_wait` are handled within the array of users exactly if every
  -- descriptor that `accept` gives, or that has input, is below its size; else the array is left.
  pub on_child_events_bounds :
      (es : List ChildEvent) (c : Child T)
      → StaysIf (all_fit es (length c.users)) c (on_child_events init process es c)
  unfolding on_child_events all_fit
  on_child_events_bounds [] c = inl (refl, c, refl, refl)
  on_child_events_bounds (e ∷ es) c = elim (on_child_event-StaysIf e c) [
    | inl (h, d, step, size) ↦ elim (on_child_events_bounds es d) [
      | inl (rest, d', steps, size') ↦
          inl (ground (arith, h, rest, size), d', ground (arith, step, steps), size' ∙ size)
      | inr (rest, steps) ↦ inr (ground (arith, h, rest, size), ground (arith, step, steps))
    ]
    | inr (h, step) ↦ inr (ground (arith, h), ground (arith, step))
  ]

  -- What an event does to the user at its target.
  abbrev pub own : ChildEvent → T → T
  own (from_parent received (some fd)) u = init fd u
  own (from_parent received none) u = u
  own (child_signals ss) u = u
  own (client fd) u = process u
  own no_input u = u

  -- What the events that go to `fd` do to its user, in their order.
  unfoldable pub replay : ℕ → List ChildEvent → T → T
  replay fd [] u = u
  replay fd (e ∷ es) u = replay fd es (if is_for fd (target e) then own e u else u)

  get_elem?-set :
      (f : T → T) (xs : List T) (i j : ℕ) (x u : T)
      → get_elem? xs i ≡ some x
      → get_elem? xs j ≡ some u
      → get_elem? (set xs i (f x)) j ≡ some (if i == j then f u else u)
  get_elem?-set f [] i j x u h e = absurd (ground (arith, h))
  get_elem?-set f (y ∷ xs) zero zero x u h e = ground (arith, h, e)
  get_elem?-set f (y ∷ xs) zero (suc j) x u h e = ground (arith, e)
  get_elem?-set f (y ∷ xs) (suc i) zero x u h e = ground (arith, e)
  get_elem?-set f (y ∷ xs) (suc i) (suc j) x u h e = ground (arith, get_elem?-set f xs i j x u h e)

  get_elem?-update :
      (f : T → T) (i : ℕ) (c d : Child T) (fd : ℕ) (u : T)
      → update f i c ≡ some d
      → get_elem? c.users fd ≡ some u
      → get_elem? d.users fd ≡ some (if i == fd then f u else u)
  unfolding update
  get_elem?-update f i c d fd u h e = elim (get_elem?-cases c.users i) [
    | inl (b, x, found) ↦ ground (arith, h, found, get_elem?-set f c.users i fd x u found e)
    | inr (b, missing) ↦ absurd (ground (arith, h, missing))
  ]

  get_elem?-on_child_event :
      (ev : ChildEvent) (c d : Child T) (fd : ℕ) (u : T)
      → on_child_event init process ev c ≡ some d
      → get_elem? c.users fd ≡ some u
      → get_elem? d.users fd ≡ some (if is_for fd (target ev) then own ev u else u)
  unfolding on_child_event
  get_elem?-on_child_event (from_parent notice (some i)) c d fd u h e =
      get_elem?-update (init i) i c d fd u h e
  get_elem?-on_child_event (from_parent would_block (some i)) c d fd u h e =
      get_elem?-update (init i) i c d fd u h e
  get_elem?-on_child_event (from_parent notice none) c d fd u h e = ground (arith, h, e)
  get_elem?-on_child_event (from_parent would_block none) c d fd u h e = ground (arith, h, e)
  get_elem?-on_child_event (from_parent broken accepted) c d fd u h e = ground (arith, h, e)
  get_elem?-on_child_event (child_signals none) c d fd u h e = ground (arith, h, e)
  get_elem?-on_child_event (child_signals (some ss)) c d fd u h e = ground (arith, h, e)
  get_elem?-on_child_event (client i) c d fd u h e = get_elem?-update process i c d fd u h e
  get_elem?-on_child_event no_input c d fd u h e = ground (arith, h, e)

  -- What the user of a descriptor is after the events of one call of `epoll_wait` depends only on the
  -- events that go to this descriptor: it is what these do to it, one after the other.
  pub on_child_events_isolates :
      (es : List ChildEvent) (c d : Child T) (fd : ℕ) (u : T)
      → on_child_events init process es c ≡ some d
      → get_elem? c.users fd ≡ some u
      → get_elem? d.users fd ≡ some (replay fd es u)
  unfolding on_child_events replay
  on_child_events_isolates [] c d fd u h e = ground (arith, h, e)
  on_child_events_isolates (ev ∷ es) c d fd u h e =
      elim (Option-cases (on_child_event init process ev c)) [
        | inl gone ↦ absurd (ground (arith, h, gone))
        | inr (c', step) ↦
            on_child_events_isolates es c' d fd (if is_for fd (target ev) then own ev u else u)
              (ground (arith, h, step)) (get_elem?-on_child_event ev c c' fd u step e)
      ]
