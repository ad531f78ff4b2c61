-- ===== src/WheelTimer/Tests.antt =====
-- Runs of the timer wheel, and its theorems at a new wheel.
use linux_socket_test.Prelude.{◌≡◌, refl, [], ◌∷◌, arith}
use linux_socket_test.Prelude.Int.{pos}
use linux_socket_test.WheelTimer.{
  TimeWheel, new, ticks_of, add_timer, del_timer, unlink, tick, tick_slot,
}
use linux_socket_test.WheelTimer.Agenda.{IsValid, after, add_timer-due, fires_on_time}

new-IsValid : IsValid new
unfolding new
new-IsValid = record { size = refl; current = omega arith }

-- Timer 7 with a timeout of 61 seconds.
abbrev one_timer : TimeWheel
one_timer = (add_timer new 7 (pos 61)).1

one_timer-IsValid : IsValid one_timer
one_timer-IsValid = ((add_timer-due new 7 new-IsValid).0 61).0

fires_after_a_turn : (tick (after 61 one_timer)).0 ≡ 7 ∷ []
unfolding new add_timer ticks_of tick tick_slot
fires_after_a_turn = refl

not_in_the_first_turn : (tick (after 1 one_timer)).0 ≡ []
unfolding new add_timer ticks_of tick tick_slot
not_in_the_first_turn = refl

deleted : (tick (after 61 (del_timer one_timer ((add_timer new 7 (pos 61)).0)))).0 ≡ []
unfolding new add_timer ticks_of tick tick_slot del_timer unlink
deleted = refl

fires_on_time_example :
    (tick (after 3 ((add_timer one_timer 8 (pos 3)).1))).0 ≡ 8 ∷ (tick (after 3 one_timer)).0
unfolding ticks_of
fires_on_time_example = fires_on_time one_timer 8 3 3 one_timer-IsValid
