-- ===== src/WheelTimer.antt =====
-- wheel_timer.h: timers in a wheel of slots that turns by one slot at each tick.
-- A slot is the list of its timers from the head on. A timer is known by its `user_data`, and
-- running its callback is an event that `tick` reports.
pub mod Agenda
mod Tests
use linux_socket_test.Prelude.{
  ℕ, ◌+◌, ◌-◌, ◌/◌, ◌%◌, List, [], ◌∷◌, Option, none, some, ltb, ◌==◌, if◌then◌else◌, get_or, set,
  replicate,
}
use linux_socket_test.Prelude.Int.{ℤ, pos, negsuc}

-- `N` and `SI`.
abbrev pub slot_count : ℕ
slot_count = 60

abbrev pub slot_interval : ℕ
slot_interval = 1

pub record TwTimer : Type 0 where
  pub rotation : ℕ
  pub time_slot : ℕ
  pub user_data : ℕ

pub record TimeWheel : Type 0 where
  pub slots : List (List TwTimer)
  pub cur_slot : ℕ

unfoldable pub new : TimeWheel
new = record { slots = replicate slot_count []; cur_slot = 0 }

-- The number of ticks for a timeout that is not negative.
unfoldable pub ticks_of : ℕ → ℕ
ticks_of timeout = if ltb timeout slot_interval then 1 else timeout / slot_interval

-- The timer that `add_timer` creates for a number of ticks.
abbrev pub new_timer : TimeWheel → ℕ → ℕ → TwTimer
new_timer w user_data ticks = record {
  rotation = ticks / slot_count;
  time_slot = (w.cur_slot + ticks % slot_count) % slot_count;
  user_data = user_data;
}

-- Both branches of the source put the timer in front of its slot.
unfoldable pub add_timer : TimeWheel → ℕ → ℤ → Option TwTimer × TimeWheel
add_timer w user_data (negsuc _) = (none, w)
add_timer w user_data (pos timeout) =
    let timer = new_timer w user_data (ticks_of timeout) in
    let ts = timer.time_slot in
    (some timer, record w { slots = set w.slots ts (timer ∷ get_or w.slots ts []) })

-- A timer is taken out of its slot's list, at the head or behind it.
unfoldable pub unlink : ℕ → List TwTimer → List TwTimer
unlink user_data [] = []
unlink user_data (x ∷ xs) =
    let rest = unlink user_data xs in if x.user_data == user_data then xs else x ∷ rest

-- `none` is a null pointer.
unfoldable pub del_timer : TimeWheel → Option TwTimer → TimeWheel
del_timer w none = w
del_timer w (some timer) =
    let ts = timer.time_slot in
    record w { slots = set w.slots ts (unlink timer.user_data (get_or w.slots ts [])) }

-- The loop of `tick` over the timers of the current slot: what it fires, and what it leaves.
unfoldable pub tick_slot : List TwTimer → List ℕ × List TwTimer
tick_slot [] = ([], [])
tick_slot (x ∷ xs) =
    let (fired, kept) = tick_slot xs in
    if ltb 0 x.rotation
    then (fired, record x { rotation = x.rotation - 1 } ∷ kept)
    else (x.user_data ∷ fired, kept)

unfoldable pub tick : TimeWheel → List ℕ × TimeWheel
tick w =
    let (fired, kept) = tick_slot (get_or w.slots w.cur_slot []) in
    (
      fired,
      record { slots = set w.slots w.cur_slot kept; cur_slot = (w.cur_slot + 1) % slot_count },
    )
