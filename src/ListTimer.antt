-- ===== src/ListTimer.antt =====
-- list_timer.h: timers in a list that is sorted by the time at which they expire.
-- The linked nodes from `head` to `tail` are a list. A timer is known by its `user_data`, a pointer
-- argument is an `Option`, and running a callback is an event that `tick` reports.
pub mod Sorted
pub mod Adjust
pub mod Expiry
mod Tests
use linux_socket_test.Prelude.{ℕ, List, [], ◌∷◌, ◌++◌, Option, none, some, ltb, ◌==◌, if◌then◌else◌}

-- A time is a number of seconds.
pub record UtilTimer : Type 0 where
  pub expire : ℕ
  pub user_data : ℕ

abbrev pub SortTimerLst : Type 0
SortTimerLst = List UtilTimer

unfoldable pub new : SortTimerLst
new = []

-- The overload of `add_timer` that starts behind a node: the list is what follows that node.
unfoldable pub add_after : UtilTimer → List UtilTimer → List UtilTimer
add_after timer [] = timer ∷ []
add_after timer (tmp ∷ rest) =
    let later = add_after timer rest in
    if ltb timer.expire tmp.expire then timer ∷ tmp ∷ rest else tmp ∷ later

unfoldable pub add_timer : Option UtilTimer → SortTimerLst → SortTimerLst
add_timer none ts = ts
add_timer (some timer) [] = timer ∷ []
add_timer (some timer) (head ∷ rest) =
    if ltb timer.expire head.expire then timer ∷ head ∷ rest else head ∷ add_after timer rest

-- A node with what is before and behind it.
unfoldable pub locate : ℕ → List UtilTimer → Option (List UtilTimer × UtilTimer × List UtilTimer)
locate user_data [] = none
locate user_data (x ∷ xs) =
    let rest = locate user_data xs in
    if x.user_data == user_data
    then some ([], x, xs)
    else elim rest [ none ↦ none | some (before, timer, after) ↦ some (x ∷ before, timer, after) ]

-- `adjust_timer` of the node `timer` between `before` and `after`, whose `expire` has been changed.
-- The source tells a node at the head apart, to move the head; in both cases the node goes behind
-- the one that followed it.
unfoldable pub adjust_node : List UtilTimer → UtilTimer → List UtilTimer → SortTimerLst
adjust_node before timer [] = before ++ timer ∷ []
adjust_node before timer (tmp ∷ rest) =
    if ltb timer.expire tmp.expire
    then before ++ (timer ∷ tmp ∷ rest)
    else before ++ (tmp ∷ add_after timer rest)

-- A pointer to a node that is not in the list is outside the contract; nothing is done then.
unfoldable pub adjust_timer : Option ℕ → SortTimerLst → SortTimerLst
adjust_timer none ts = ts
adjust_timer (some user_data) ts = elim (locate user_data ts) [
  | none ↦ ts
  | some (before, timer, after) ↦ adjust_node before timer after
]

unfoldable pub del_timer : Option ℕ → SortTimerLst → SortTimerLst
del_timer none ts = ts
del_timer (some user_data) ts = elim (locate user_data ts) [
  | none ↦ ts
  | some (before, timer, after) ↦ before ++ after
]

-- `tick` at the time `cur`: the callbacks it runs, and the list it leaves.
unfoldable pub tick : ℕ → SortTimerLst → List ℕ × SortTimerLst
tick cur [] = ([], [])
tick cur (tmp ∷ rest) =
    let (fired, kept) = tick cur rest in
    if ltb cur tmp.expire then ([], tmp ∷ rest) else (tmp.user_data ∷ fired, kept)
