-- ===== src/Signals/Delivery.antt =====
-- half_sync_half_async.h and list_timer.cpp: which signals the main loop finds in the pipe.
use linux_socket_test.Prelude.{
  ℕ, suc, ◌-◌, ◌%◌, ◌≤◌, ◌<◌, ◌≡◌, ◌≢◌, ◌⊎◌, refl, ap, ◌∙◌, List, [], ◌∷◌, ◌++◌, some, Bool, true,
  false, ◌==◌, ◌||◌, if◌then◌else◌, arith, length, append_assoc, append-nil, ◌>>=◌, inl, inr,
}
use linux_socket_test.Signals.{
  Action, by_default, handled, ignored, Process, sigint, sigpipe, sigterm, sigchld, sigalrm,
  send_byte, sig_handler, addsig, setup_sig_pipe, setup_timer_signals, deliver, deliver_all,
}

-- Every signal of the list is handled or ignored.
abbrev pub Expected : (ℕ → Action) → List ℕ → Type 0
Expected action [] = Unit
Expected action (sig ∷ sigs) = (action sig ≢ by_default) × (sig < 256) × Expected action sigs

-- The signals that are handled.
unfoldable pub handled_ones : (ℕ → Action) → List ℕ → List ℕ
handled_ones action [] = []
handled_ones action (sig ∷ sigs) =
    let rest = handled_ones action sigs in elim (action sig) [ handled ↦ sig ∷ rest | _ ↦ rest ]

sig_handler-room :
    (sig : ℕ) (p : Process)
    → 0 < p.room
    → sig < 256
    → sig_handler sig p ≡ record p { pipe = p.pipe ++ sig ∷ []; room = p.room - 1 }
unfolding sig_handler send_byte
sig_handler-room sig p h k =
    let e : sig % 256 ≡ sig = omega (arith, k) in
    let full : (p.room == 0) ≡ false = ground (arith, h) in rw (full, e) refl

-- What the signals of a list add to the pipe, `errno` being as before.
abbrev after : Process → List ℕ → ℕ → Process
after p added used = record p { pipe = p.pipe ++ added; room = p.room - used }

after-nil : (p : Process) → p ≡ after p [] 0
after-nil p = let e : p.room - 0 ≡ p.room = omega arith in rw (append-nil p.pipe, e) refl

after-after :
    (p : Process) (sig : ℕ) (sigs : List ℕ)
    → after (after p (sig ∷ []) 1) sigs (length sigs) ≡ after p (sig ∷ sigs) (suc (length sigs))
after-after p sig sigs =
    let e : p.room - 1 - length sigs ≡ p.room - suc (length sigs) = omega arith in
    rw (append_assoc p.pipe (sig ∷ []) sigs, e) refl

deliver-handled :
    (sig : ℕ) (p : Process)
    → p.action sig ≡ handled
    → 0 < p.room
    → sig < 256
    → deliver sig p ≡ some (after p (sig ∷ []) 1)
unfolding deliver
deliver-handled sig p e room small = rw (e, deliver) (ap some (sig_handler-room sig p room small))

deliver-ignored : (sig : ℕ) (p : Process) → p.action sig ≡ ignored → deliver sig p ≡ some p
unfolding deliver
deliver-ignored sig p e = rw (e, deliver) refl

Action-cases : (a : Action) → (a ≡ by_default) ⊎ (a ≡ handled) ⊎ (a ≡ ignored)
Action-cases by_default = inl refl
Action-cases handled = inr (inl refl)
Action-cases ignored = inr (inr refl)

pub deliver_all-after :
    (sigs : List ℕ) (p : Process)
    → Expected p.action sigs
    → length sigs ≤ p.room
    → deliver_all sigs p
      ≡ some (after p (handled_ones p.action sigs) (length (handled_ones p.action sigs)))
unfolding deliver_all handled_ones
deliver_all-after [] p h k = ap some (after-nil p)
deliver_all-after (sig ∷ sigs) p h k = elim (Action-cases (p.action sig)) [
  | inl e ↦ absurd (h.0 e)
  | inr (inr e) ↦
      rw (deliver-ignored sig p e, e, deliver_all, handled_ones)
        (deliver_all-after sigs p h.2 (omega (arith, k)))
  | inr (inl e) ↦
      rw (deliver-handled sig p e (omega (arith, k)) h.1, e, deliver_all, handled_ones)
        (deliver_all-after sigs (after p (sig ∷ []) 1) h.2 (omega (arith, k))
          ∙ ap some (after-after p sig (handled_ones p.action sigs)))
]

-- The signals of the pool of processes, and those of the timer server.
abbrev pub of_pool : ℕ → Bool
of_pool sig = sig == sigchld || sig == sigterm || sig == sigint || sig == sigpipe

abbrev pub of_timer : ℕ → Bool
of_timer sig = sig == sigalrm || sig == sigterm

abbrev pub AllAre : (ℕ → Bool) → List ℕ → Type 0
AllAre test [] = Unit
AllAre test (sig ∷ sigs) = (test sig ≡ true) × AllAre test sigs

unfoldable pub without : ℕ → List ℕ → List ℕ
without sig [] = []
without sig (s ∷ ss) = let rest = without sig ss in if s == sig then rest else s ∷ rest

abbrev pub pool_action : (ℕ → Action) → ℕ → Action
pool_action action n =
    if n == sigpipe
    then ignored
    else if n == sigint
    then handled
    else if n == sigterm
    then handled
    else if n == sigchld
    then handled
    else action n

pool-Expected :
    (action : ℕ → Action) (sigs : List ℕ) → AllAre of_pool sigs → Expected (pool_action action) sigs
pool-Expected action [] h = tt
pool-Expected action (sig ∷ sigs) h =
    (ground (arith, h.0), ground (arith, h.0), pool-Expected action sigs h.1)

handled_ones-pool :
    (action : ℕ → Action) (sigs : List ℕ)
    → AllAre of_pool sigs
    → handled_ones (pool_action action) sigs ≡ without sigpipe sigs
unfolding handled_ones without
handled_ones-pool action [] h = refl
handled_ones-pool action (sig ∷ sigs) h = ground (arith, h.0, handled_ones-pool action sigs h.1)

abbrev pub timer_action : (ℕ → Action) → ℕ → Action
timer_action action n = if n == sigterm then handled else if n == sigalrm then handled else action n

timer-Expected :
    (action : ℕ → Action) (sigs : List ℕ)
    → AllAre of_timer sigs
    → Expected (timer_action action) sigs
timer-Expected action [] h = tt
timer-Expected action (sig ∷ sigs) h =
    (ground (arith, h.0), ground (arith, h.0), timer-Expected action sigs h.1)

handled_ones-timer :
    (action : ℕ → Action) (sigs : List ℕ)
    → AllAre of_timer sigs
    → handled_ones (timer_action action) sigs ≡ sigs
unfolding handled_ones
handled_ones-timer action [] h = refl
handled_ones-timer action (sig ∷ sigs) h = ground (arith, h.0, handled_ones-timer action sigs h.1)

abbrev restarts : List ℕ → (ℕ → Bool) → ℕ → Bool
restarts [] r n = r n
restarts (sig ∷ sigs) r n = if n == sig then true else restarts sigs r n

setup_sig_pipe-actions :
    (p : Process)
    → setup_sig_pipe true true p
      ≡ some (record p {
        action = pool_action p.action;
        restart = restarts (sigpipe ∷ sigint ∷ sigterm ∷ sigchld ∷ []) p.restart;
      })
unfolding setup_sig_pipe addsig
setup_sig_pipe-actions p = refl

setup_timer_signals-actions :
    (p : Process)
    → setup_timer_signals true true p
      ≡ some (record p {
        action = timer_action p.action;
        restart = restarts (sigterm ∷ sigalrm ∷ []) p.restart;
      })
unfolding setup_timer_signals addsig
setup_timer_signals-actions p = refl

-- Once the pool of processes has set its signals up, any of SIGCHLD, SIGTERM, SIGINT and SIGPIPE that
-- arrive, as many as the pipe has room for, leave the process alive and `errno` as it was, and the pipe
-- has gained just those that are not SIGPIPE, in their order.
pub pool_signals_arrive :
    (p : Process) (sigs : List ℕ)
    → AllAre of_pool sigs
    → length sigs ≤ p.room
    → (q : Process) × ((setup_sig_pipe true true p >>= deliver_all sigs) ≡ some q)
      × (q.errno ≡ p.errno)
      × (q.pipe ≡ p.pipe ++ without sigpipe sigs)
pool_signals_arrive p sigs h k =
    let ready : Process = record p {
      action = pool_action p.action;
      restart = restarts (sigpipe ∷ sigint ∷ sigterm ∷ sigchld ∷ []) p.restart;
    } in
    let got = handled_ones (pool_action p.action) sigs in
    (
      after ready got (length got),
      rw (setup_sig_pipe-actions p)
          (deliver_all-after sigs ready (pool-Expected p.action sigs h) k),
      refl,
      ap (λ l. p.pipe ++ l) (handled_ones-pool p.action sigs h),
    )

-- The same for SIGALRM and SIGTERM in the timer server, which all arrive.
pub timer_signals_arrive :
    (p : Process) (sigs : List ℕ)
    → AllAre of_timer sigs
    → length sigs ≤ p.room
    → (q : Process) × ((setup_timer_signals true true p >>= deliver_all sigs) ≡ some q)
      × (q.errno ≡ p.errno)
      × (q.pipe ≡ p.pipe ++ sigs)
timer_signals_arrive p sigs h k =
    let ready : Process = record p {
      action = timer_action p.action;
      restart = restarts (sigterm ∷ sigalrm ∷ []) p.restart;
    } in
    let got = handled_ones (timer_action p.action) sigs in
    (
      after ready got (length got),
      rw (setup_timer_signals-actions p)
          (deliver_all-after sigs ready (timer-Expected p.action sigs h) k),
      refl,
      ap (λ l. p.pipe ++ l) (handled_ones-timer p.action sigs h),
    )
