-- ===== src/Deadlock/Runs.antt =====
-- deadlock.cpp: all runs of the two threads, by a search through the states.
use linux_socket_test.Prelude.{
  ℕ, zero, suc, ◌≡◌, inl, inr, refl, sym, ap, ◌∙◌, List, [], ◌∷◌, ◌++◌, Option, none, some, Bool,
  true, false, ◌&&◌, ◌||◌, if◌then◌else◌, arith, eq_bytes, Bool-cases,
}
use linux_socket_test.Deadlock.{
  free, parent, child, Pc, bump, lock_second, add, finished, State, init, main_step, another_step,
  Step, by_main, by_another, Reach, start, later,
}
use linux_socket_test.Deadlock.Codes.{same, same→eq}

abbrev member : State → List State → Bool
member t [] = false
member t (s ∷ ss) = same s t || member t ss

abbrev all : (State → Bool) → List State → Bool
all p [] = true
all p (s ∷ ss) = p s && all p ss

all-member :
    (p : State → Bool) (t : State) (ss : List State)
    → all p ss ≡ true
    → member t ss ≡ true
    → p t ≡ true
all-member p t [] h k = cc
all-member p t (s ∷ ss) h k = elim (Bool-cases (same s t)) [
  | inl e ↦ let q = same→eq s t e in ap p (sym q) ∙ ground (arith, h)
  | inr e ↦ all-member p t ss (ground (arith, h)) (ground (arith, e, k))
]

abbrev to_list : Option State → List State
to_list none = []
to_list (some t) = t ∷ []

abbrev successors : State → List State
successors s = to_list (main_step s) ++ to_list (another_step s)

-- The states that are found from those to do, on fuel: one for each state.
abbrev search_from : ℕ → List State → List State → List State
search_from zero todo seen = seen
search_from (suc fuel) [] seen = seen
search_from (suc fuel) (s ∷ todo) seen =
    if member s seen
    then search_from fuel todo seen
    else search_from fuel (successors s ++ todo) (s ∷ seen)

abbrev states : List State
unfolding main_step another_step
states = search_from 200 (init ∷ []) []

-- Every step of a state that is found leads to one.
states_closed : all (λ s. all (λ t. member t states) (successors s)) states ≡ true
unfolding main_step another_step eq_bytes
states_closed = refl

init_found : member init states ≡ true
unfolding main_step another_step eq_bytes
init_found = refl

step-found :
    {s t : State}
    → Step s t
    → all (λ u. member u states) (successors s) ≡ true
    → member t states ≡ true
step-found (by_main e) h = ground (arith, e, h)
step-found (by_another e) h = ground (arith, e, h)

Reach-found : {s : State} → Reach s → member s states ≡ true
Reach-found start = init_found
Reach-found (later r step) = step-found step (all-member _ _ states states_closed (Reach-found r))

-- A property of the states that are found holds in every state that is reached.
in_every_state : (p : State → Bool) {s : State} → all p states ≡ true → Reach s → p s ≡ true
in_every_state p h r = all-member p _ states h (Reach-found r)

-- The ends of the runs: both threads wait, or both are done, `main` or `another` first.
abbrev pub stuck : State
stuck = record {
  a = 1;
  b = 1;
  mutex_a = parent;
  mutex_b = child;
  main_pc = lock_second;
  another_pc = lock_second;
}

abbrev pub all_done : ℕ → ℕ → State
all_done a b = record {
  a = a;
  b = b;
  mutex_a = free;
  mutex_b = free;
  main_pc = finished;
  another_pc = finished;
}

abbrev is_none : Option State → Bool
is_none none = true
is_none (some t) = false

abbrev is_end : State → Bool
is_end s = same stuck s || same (all_done 2 3) s || same (all_done 3 2) s

-- The statements of a thread that access its own variable, and the other's.
abbrev touches_own : Pc → Bool
touches_own bump = true
touches_own add = true
touches_own _ = false

abbrev touches_other : Pc → Bool
touches_other add = true
touches_other _ = false

abbrev races : State → Bool
races s =
    touches_own s.main_pc && touches_other s.another_pc
    || touches_other s.main_pc && touches_own s.another_pc

races_checked : all (λ s. if races s then false else true) states ≡ true
unfolding main_step another_step eq_bytes
races_checked = refl

-- The two threads are never about to access the same variable, so that a statement is one step.
pub no_races : {s : State} → Reach s → races s ≡ false
no_races {s} r = ground (arith, in_every_state _ races_checked r)
