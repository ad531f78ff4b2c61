-- ===== src/ProcessPool/Reaping.antt =====
-- half_sync_half_async.h, `run_parent`: what SIGCHLD leaves of the children that the parent knows.
use linux_socket_test.Prelude.{
  ℕ, zero, suc, ◌+◌, ◌≤◌, ◌<◌, ◌≡◌, refl, ◌↔◌, ap, sym, ◌∙◌, List, [], ◌∷◌, Option, none, some,
  Bool, true, false, ◌&&◌, ◌||◌, ◌==◌, ltb, leb, if◌then◌else◌, arith, Option-cases, Bool-cases,
  inl, inr,
}
use native.Mathlib.Decide.{ℕ_discrete}
use linux_socket_test.ProcessPool.{Process, Pool, pid_at}
use linux_socket_test.ProcessPool.Parent.{reap_at, reap_from, reap_all, all_ended, on_sigchld}
use linux_socket_test.ProcessPool.Safety.{pid_at-set}

abbrev pub is_pid : Option ℕ → ℕ → Bool
is_pid none pid = false
is_pid (some q) pid = q == pid

unfoldable pub is_any : Option ℕ → List ℕ → Bool
is_any x [] = false
is_any x (pid ∷ pids) = is_pid x pid || is_any x pids

reap_at-number : (pid i : ℕ) (p : Pool) → (reap_at pid i p).process_number ≡ p.process_number
unfolding reap_at
reap_at-number pid i p = ground arith

pid_at-reap_at :
    (pid i j : ℕ) (p : Pool)
    → pid_at (reap_at pid i p).sub_process j
      ≡ (if j == i && is_pid (pid_at p.sub_process j) pid then none else pid_at p.sub_process j)
unfolding reap_at
pid_at-reap_at pid i j p = ground (arith, pid_at-set p.sub_process i j)

reap_from-number :
    (pid k i : ℕ) (p : Pool) → (reap_from pid k i p).process_number ≡ p.process_number
unfolding reap_from
reap_from-number pid zero i p = refl
reap_from-number pid (suc k) i p =
    reap_from-number pid k (i + 1) (reap_at pid i p) ∙ reap_at-number pid i p

pid_at-reap_from :
    (pid k i j : ℕ) (p : Pool)
    → pid_at (reap_from pid k i p).sub_process j ≡ (
        if (leb i j && ltb j (i + k)) && is_pid (pid_at p.sub_process j) pid
        then none
        else pid_at p.sub_process j)
unfolding reap_from
pid_at-reap_from pid zero i j p = ground arith
pid_at-reap_from pid (suc k) i j p =
    ground (arith, pid_at-reap_from pid k (i + 1) j (reap_at pid i p), pid_at-reap_at pid i j p)

pub reap_all-number :
    (pids : List ℕ) (p : Pool) → (reap_all pids p).process_number ≡ p.process_number
unfolding reap_all
reap_all-number [] p = refl
reap_all-number (pid ∷ pids) p =
    reap_all-number pids (reap_from pid p.process_number 0 p)
    ∙ reap_from-number pid p.process_number 0 p

pid_at-reap_all :
    (pids : List ℕ) (j : ℕ) (p : Pool)
    → j < p.process_number
    → pid_at (reap_all pids p).sub_process j
      ≡ (if is_any (pid_at p.sub_process j) pids then none else pid_at p.sub_process j)
unfolding reap_all is_any
pid_at-reap_all [] j p h = refl
pid_at-reap_all (pid ∷ pids) j p h =
    let q = reap_from pid p.process_number 0 p in
    let number = reap_from-number pid p.process_number 0 p in
    let ih = pid_at-reap_all pids j q (rw number h) in
    ground (arith, ih, pid_at-reap_from pid p.process_number 0 j p)

all_ended-all :
    (ps : List Process) (k i : ℕ)
    → ((j : ℕ) → i ≤ j → j < i + k → pid_at ps j ≡ none)
    → all_ended ps k i ≡ true
unfolding all_ended
all_ended-all ps zero i h = refl
all_ended-all ps (suc k) i h =
    let ih = all_ended-all ps k (i + 1) (λ j a b. h j (omega arith) (omega arith)) in
    ground (arith, ih, h i (omega arith) (omega arith))

all-all_ended :
    (ps : List Process) (k i j : ℕ)
    → all_ended ps k i ≡ true
    → i ≤ j
    → j < i + k
    → pid_at ps j ≡ none
unfolding all_ended
all-all_ended ps zero i j h a b = absurd (omega arith)
all-all_ended ps (suc k) i j h a b = elim (ℕ_discrete j i) [
  | yes same ↦ ground (arith, h)
  | no other ↦ all-all_ended ps k (i + 1) j (ground (arith, h)) (ground arith) (omega arith)
]

known_reported :
    (pids : List ℕ) (p : Pool) (i q : ℕ)
    → i < p.process_number
    → pid_at p.sub_process i ≡ some q
    → pid_at (reap_all pids p).sub_process i ≡ none
    → is_any (some q) pids ≡ true
known_reported pids p i q b e gone = ground (arith, e, gone, pid_at-reap_all pids i p b)

reported_gone :
    (pids : List ℕ) (p : Pool) (i : ℕ)
    → i < p.process_number
    → ((q : ℕ)
        → i < p.process_number
        → pid_at p.sub_process i ≡ some q
        → is_any (some q) pids ≡ true)
    → pid_at (reap_all pids p).sub_process i ≡ none
reported_gone pids p i b h =
    let found = pid_at-reap_all pids i p b in
    elim (Option-cases (pid_at p.sub_process i)) [
      | inl gone ↦ ground (arith, found, gone)
      | inr (q, e) ↦ ground (arith, found, e, h q b e)
    ]

-- The parent stops on SIGCHLD exactly if every child that it still knew is among the pids that
-- `waitpid` reports.
pub on_sigchld_stops :
    (pids : List ℕ) (p : Pool)
    → ((on_sigchld pids p).stop ≡ true) ↔ (
        (i q : ℕ)
        → i < p.process_number
        → pid_at p.sub_process i ≡ some q
        → is_any (some q) pids ≡ true)
unfolding on_sigchld is_any
on_sigchld_stops pids p =
    let number = reap_all-number pids p in
    (
      λ h i q b e.
          let gone =
            all-all_ended (reap_all pids p).sub_process (reap_all pids p).process_number 0 i h
              (omega arith) (omega (arith, number, b)) in
          known_reported pids p i q b e gone,
      λ h.
          all_ended-all (reap_all pids p).sub_process (reap_all pids p).process_number 0
            (λ i a b. reported_gone pids p i (omega (arith, number, b)) (h i)),
    )

pub on_sigchld-number :
    (pids : List ℕ) (p : Pool) → (on_sigchld pids p).process_number ≡ p.process_number
unfolding on_sigchld
on_sigchld-number pids p = reap_all-number pids p

pub still_known :
    (pids : List ℕ) (p : Pool) (i q : ℕ)
    → i < p.process_number
    → pid_at (on_sigchld pids p).sub_process i ≡ some q
    → (pid_at p.sub_process i ≡ some q) × (is_any (some q) pids ≡ false)
unfolding on_sigchld
still_known pids p i q b e =
    let found = pid_at-reap_all pids i p b in
    elim (Bool-cases (is_any (pid_at p.sub_process i) pids)) [
      | inl here ↦ absurd (ground (arith, found, e, here))
      | inr gone ↦
          let same : pid_at p.sub_process i ≡ some q = ground (arith, found, e, gone) in
          (same, ap (λ x. is_any x pids) (sym same) ∙ gone)
    ]
