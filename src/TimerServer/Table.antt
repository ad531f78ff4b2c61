-- ===== src/TimerServer/Table.antt =====
-- list_timer.cpp: what the server keeps track of, a table of the open connections with the time at
-- which something arrived on them last, and the lists of timers that stand for it.
use linux_socket_test.Prelude.{
  ℕ, ◌+◌, ◌*◌, ◌≤◌, ◌<◌, ◌≡◌, ◌∙◌, Option, none, some, Option-cases, inl, inr, true, leb, ◌==◌,
  if◌then◌else◌, arith,
}
use mathlib.Core.Path.{subst}
use native.Mathlib.Decide.{ℕ_discrete}
use linux_socket_test.ListTimer.{UtilTimer, SortTimerLst, add_after}
use linux_socket_test.ListTimer.Sorted.{IsSortedFrom, lower, add_after-IsSorted}
use linux_socket_test.ListTimer.Expiry.{pending, tick_expires}
use linux_socket_test.TimerServer.{
  timeslot, fd_limit, bytes, ended, would_block, broken, Input, connection, signals, client,
  no_input,
}
use linux_socket_test.TimerServer.Times.{
  expire_of, are_unique, remove, expire_of-add_after, are_unique-add_after, expire_of-remove,
  are_unique-remove, expire_of-pending, are_unique-pending,
}
use linux_socket_test.TimerServer.Moves.{remove-IsSorted}

-- For each descriptor, the time at which something arrived last; `none` where it is not open.
abbrev pub Table : Type 0
Table = ℕ → Option ℕ

abbrev pub update : ℕ → Option ℕ → Table → Table
update fd v f = λ i. if fd == i then v else f i

abbrev pub spec_input : ℕ → Input → Table → Table
spec_input cur (connection none) f = f
spec_input cur (connection (some fd)) f = update fd (some cur) f
spec_input cur (signals ss) f = f
spec_input cur (client fd bytes) f = update fd (some cur) f
spec_input cur (client fd ended) f = update fd none f
spec_input cur (client fd broken) f = update fd none f
spec_input cur (client fd would_block) f = f
spec_input cur no_input f = f

-- What is idle for three time slots or more is closed.
abbrev pub spec_timeout : ℕ → Table → Table
spec_timeout cur f = λ i. elim (f i) [
  | none ↦ none
  | some last ↦ if leb (last + 3 * timeslot) cur then none else some last
]

-- What the system guarantees of an event: a new descriptor is not in use, and input arrives only on
-- those that are. Further, `accept` does not fail, and its descriptors fit the array of users.
abbrev pub IsAllowed : Input → Table → Type 0
IsAllowed (connection none) f = ⊥
IsAllowed (connection (some fd)) f = (fd < fd_limit) × (f fd ≡ none)
IsAllowed (signals ss) f = Unit
IsAllowed (client fd r) f = (last : ℕ) × (f fd ≡ some last)
IsAllowed no_input f = Unit

-- The timers of a server at the time `now` stand for the table.
pub record Implements (now : ℕ) (ts : SortTimerLst) (f : Table) : Type 0 where
  pub sorted : IsSortedFrom 0 ts
  pub unique : are_unique ts ≡ true
  pub times :
      (fd : ℕ)
      → expire_of fd ts ≡ elim (f fd) [ none ↦ none | some last ↦ some (last + 3 * timeslot) ]
  pub past : (fd last : ℕ) → f fd ≡ some last → last ≤ now

pub wait_for :
    {now cur : ℕ} {ts : SortTimerLst} {f : Table}
    → now ≤ cur
    → Implements now ts f
    → Implements cur ts f
wait_for h v = record {
  sorted = v.sorted;
  unique = v.unique;
  times = v.times;
  past = λ fd last e. let p = v.past fd last e in omega arith;
}

pub same_table :
    {now : ℕ} {ts : SortTimerLst} {f g : Table}
    → ((i : ℕ) → f i ≡ g i)
    → Implements now ts f
    → Implements now ts g
same_table e v = record {
  sorted = v.sorted;
  unique = v.unique;
  times = λ fd. ground (arith, v.times fd, e fd);
  past = λ fd last h. v.past fd last (e fd ∙ h);
}

pub add_after-Implements :
    (now fd : ℕ) (ts : SortTimerLst) (f : Table)
    → Implements now ts f
    → f fd ≡ none
    → Implements now
        (add_after (record { expire = now + 3 * timeslot; user_data = fd }) ts)
        (update fd (some now) f)
add_after-Implements now fd ts f v free =
    let t : UtilTimer = record { expire = now + 3 * timeslot; user_data = fd } in
    let absent : expire_of fd ts ≡ none = ground (arith, v.times fd, free) in
    record {
      sorted = add_after-IsSorted t (omega arith) v.sorted;
      unique = are_unique-add_after t ts absent v.unique;
      times = λ i. ground (arith, expire_of-add_after i t ts absent, v.times i);
      past = λ i last e. elim (ℕ_discrete fd i) [
        | yes same ↦ ground (arith, e, same)
        | no other ↦ v.past i last (ground (arith, e, other))
      ];
    }

pub remove-Implements :
    (now fd last : ℕ) (ts : SortTimerLst) (f : Table)
    → Implements now ts f
    → f fd ≡ some last
    → Implements now (remove fd ts) (update fd none f)
remove-Implements now fd last ts f v e =
    let there : expire_of fd ts ≡ some (last + 3 * timeslot) = ground (arith, v.times fd, e) in
    record {
      sorted = remove-IsSorted fd (last + 3 * timeslot) ts there v.sorted;
      unique = are_unique-remove fd ts v.unique;
      times = λ i. ground (arith, expire_of-remove i fd ts v.unique, v.times i);
      past = λ i l h. elim (ℕ_discrete fd i) [
        | yes same ↦ absurd (ground (arith, h, same))
        | no other ↦ v.past i l (ground (arith, h, other))
      ];
    }

pub pending-Implements :
    (now : ℕ) (ts : SortTimerLst) (f : Table)
    → Implements now ts f
    → Implements now (pending now ts) (spec_timeout now f)
pending-Implements now ts f v =
    let (_, left, ordered) = tick_expires now ts v.sorted in
    record {
      sorted = subst (IsSortedFrom 0) left (lower (omega arith) ordered);
      unique = are_unique-pending now ts v.unique;
      times = λ i. ground (arith, expire_of-pending i now ts v.unique, v.times i);
      past = λ i l e. elim (Option-cases (f i)) [
        | inl closed ↦ absurd (ground (arith, e, closed))
        | inr (last, here) ↦ v.past i l (ground (arith, e, here))
      ];
    }
