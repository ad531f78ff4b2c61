-- ===== src/ProcessPool/Fairness.antt =====
-- Which child gets a connection: the next one in turn that runs, so that each has its turn.
use linux_socket_test.Prelude.{
  ℕ, zero, suc, ◌+◌, ◌-◌, ◌%◌, ◌≤◌, ◌<◌, ◌≡◌, ◌≢◌, ◌⊎◌, refl, ap, ◌∙◌, List, [], ◌∷◌, true, false,
  ◌==◌, leb, if◌then◌else◌, arith, replicate, Bool-cases, inl, inr,
}
use linux_socket_test.ProcessPool.{Process, Action, sent, closed, killed, Pool, pid_at, is_alive}
use linux_socket_test.ProcessPool.Parent.{
  next_child, on_connection, connection, on_event, on_events,
}
use native.Mathlib.Nat.{mod_self, mod-eq_of_lt}
use native.Mathlib.Decide.{ℕ_discrete}

abbrev pub IsAlive : List Process → ℕ → Type 0
IsAlive ps i = is_alive (pid_at ps i) ≡ true

-- How many steps in the ring lead from `c` to `j`.
abbrev pub turns : ℕ → ℕ → ℕ → ℕ
turns n c j = if leb c j then j - c else j + n - c

next_index : (n i : ℕ) → i < n → (i + 1) % n ≡ (if i + 1 == n then 0 else i + 1)
next_index n i h = elim (ℕ_discrete (i + 1) n) [
  | yes e ↦ rw e (mod_self n ∙ ground arith)
  | no ne ↦ mod-eq_of_lt (omega arith) ∙ ground (arith, ne)
]

-- The child that is chosen runs, and comes no later in turn than any other that does.
next_child-first :
    (fuel : ℕ) (ps : List Process) (n start i j : ℕ)
    → start < n
    → i < n
    → j < n
    → n ≤ fuel + turns n start i
    → turns n start i ≤ turns n start j
    → IsAlive ps j
    → let r = next_child fuel ps n start i in
      (r < n) × IsAlive ps r × (turns n start r ≤ turns n start j)
unfolding next_child
next_child-first zero ps n start i j hs hi hj f t a = absurd (ground (arith, f, hi, hs))
next_child-first (suc fuel) ps n start i j hs hi hj f t a =
    elim (Bool-cases (is_alive (pid_at ps i))) [
      | inl alive ↦
          let e : next_child (suc fuel) ps n start i ≡ i = ground (arith, alive) in
          rw e (hi, alive, t)
      | inr dead ↦
          let ne : i ≢ j = λ e. ground (arith, dead, a, ap (λ k. is_alive (pid_at ps k)) e) in
          let step = next_index n i hi in
          elim (ℕ_discrete ((i + 1) % n) start) [
            | yes back ↦ absurd (ground (arith, step, back, hi, hs, hj, t, ne))
            | no on ↦
                let ih =
                  next_child-first fuel ps n start ((i + 1) % n) j hs (ground (arith, step, hi)) hj
                    (ground (arith, step, hi, f, on)) (ground (arith, step, hi, t, on, ne)) a in
                let e : next_child (suc fuel) ps n start i
                    ≡ next_child fuel ps n start ((i + 1) % n) =
                  ground (arith, dead, on) in
                rw e ih
          ]
    ]

-- What every connection keeps, and how it brings each child that runs nearer to its turn.
record Ready (p : Pool) (j : ℕ) : Type 0 where
  pub inside : j < p.process_number
  pub current : p.counter < p.process_number
  pub alive : IsAlive p.sub_process j

-- How often a child has been sent a connection.
unfoldable pub sent_to : ℕ → List Action → ℕ
sent_to j [] = 0
sent_to j (sent i ∷ l) = let rest = sent_to j l in if i == j then suc rest else rest
sent_to j (closed i ∷ l) = sent_to j l
sent_to j (killed pid ∷ l) = sent_to j l

on_connection-turns :
    (p : Pool) (j : ℕ)
    → Ready p j
    → let q = (on_connection p).1 in
      ((on_connection p).0 ≡ false)
      × Ready q j
      × (q.process_number ≡ p.process_number)
      × (sent_to j p.log ≤ sent_to j q.log)
      × ((sent_to j p.log < sent_to j q.log)
          ⊎ (turns p.process_number q.counter j < turns p.process_number p.counter j))
unfolding sent_to on_connection
on_connection-turns p j v =
    let n = p.process_number in
    let i = next_child n p.sub_process n p.counter p.counter in
    let (inside, alive, first) =
      next_child-first n p.sub_process n p.counter p.counter j v.current v.current v.inside
        (omega arith) (ground arith) v.alive in
    let step = next_index n i inside in
    rw (on_connection, alive)
      (
        refl,
        record { inside = v.inside; current = ground (arith, step, inside); alive = v.alive },
        refl,
        ground arith,
        elim (ℕ_discrete i j) [
          | yes e ↦ inl (ground (arith, e))
          | no ne ↦ inr (ground (arith, step, inside, first, ne, v.current, v.inside))
        ],
      )

connections_kept :
    (k : ℕ) (p : Pool) (j : ℕ)
    → Ready p j
    → sent_to j p.log ≤ sent_to j (on_events (replicate k connection) p).log
unfolding on_events on_event
connections_kept zero p j v = omega arith
connections_kept (suc k) p j v =
    let (stay, ready, same, more, turn) = on_connection-turns p j v in
    let ih = connections_kept k ((on_connection p).1) j ready in rw stay (omega arith)

connections_served :
    (k : ℕ) (p : Pool) (j : ℕ)
    → Ready p j
    → turns p.process_number p.counter j < k
    → sent_to j p.log < sent_to j (on_events (replicate k connection) p).log
unfolding on_events on_event
connections_served zero p j v h = absurd (omega arith)
connections_served (suc k) p j v h =
    let (stay, ready, same, more, turn) = on_connection-turns p j v in
    let q = (on_connection p).1 in
    rw stay (elim turn [
      | inl now ↦ let kept = connections_kept k q j ready in omega arith
      | inr nearer ↦ let ih = connections_served k q j ready (rw same (omega arith)) in omega arith
    ])

-- A child that runs is not passed over: of as many connections in a row as the pool has processes,
-- at least one is sent to it, whatever the other children do.
pub connections_fair :
    (p : Pool) (j : ℕ)
    → j < p.process_number
    → p.counter < p.process_number
    → IsAlive p.sub_process j
    → sent_to j p.log < sent_to j (on_events (replicate p.process_number connection) p).log
connections_fair p j inside current alive =
    connections_served p.process_number p j
      (record { inside = inside; current = current; alive = alive }) (ground arith)
