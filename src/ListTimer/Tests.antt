-- ===== src/ListTimer/Tests.antt =====
-- Runs of the timer list, and its theorems at a list of three timers.
use linux_socket_test.Prelude.{ℕ, ◌≡◌, refl, [], ◌∷◌, none, some, arith}
use linux_socket_test.ListTimer.{UtilTimer, SortTimerLst, new, add_after, add_timer, locate, tick}
use linux_socket_test.ListTimer.Sorted.{IsSortedFrom, nil, cons}

abbrev timer_at : ℕ → ℕ → UtilTimer
timer_at expire user_data = record { expire = expire; user_data = user_data }

abbrev three : SortTimerLst
three = timer_at 10 1 ∷ timer_at 20 2 ∷ timer_at 30 3 ∷ []

three-IsSorted : IsSortedFrom 0 three
three-IsSorted =
    cons (timer_at 10 1) (omega arith)
      (cons (timer_at 20 2) (omega arith) (cons (timer_at 30 3) (omega arith) nil))

built :
    add_timer
      (some (timer_at 20 2))
      (add_timer (some (timer_at 10 1)) (add_timer (some (timer_at 30 3)) new))
    ≡ three
unfolding new add_timer add_after
built = refl

two_fire : tick 25 three ≡ (1 ∷ 2 ∷ [], timer_at 30 3 ∷ [])
unfolding tick
two_fire = refl

absent : locate 2 (timer_at 10 1 ∷ []) ≡ none
unfolding locate
absent = refl
