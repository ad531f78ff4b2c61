-- ===== src/TimerServer.antt =====
-- list_timer.cpp: a server that closes connections on which nothing has arrived for some time, with
-- the timers of list_timer.h.
-- A connection and its timer are known by the descriptor. `none` is an access outside `users`, or
-- through a pointer to a timer that is not in the list. What the calls of the system give, and the
-- times of the clock, are arguments; `closed` is the log of the calls of `close`.
pub mod Alarms
pub mod Times
pub mod Moves
pub mod Table
pub mod Closed
pub mod Inputs
pub mod Refine
mod Tests
mod AlarmTests
use linux_socket_test.Prelude.{
  ℕ, ◌+◌, ◌*◌, List, [], ◌∷◌, Option, none, some, Bool, true, false, ltb, ◌==◌, if◌then◌else◌,
  ◌>>=◌,
}
use linux_socket_test.ListTimer.{
  UtilTimer, SortTimerLst, add_timer, locate, adjust_timer, del_timer, tick,
}

-- `FD_LIMIT` and `TIMESLOT`.
abbrev pub fd_limit : ℕ
fd_limit = 65535

abbrev pub timeslot : ℕ
timeslot = 5

pub record TimerServer : Type 0 where
  pub timer_lst : SortTimerLst
  pub timeout : Bool
  pub stop_server : Bool
  pub closed : List ℕ

abbrev pub new : TimerServer
new = record { timer_lst = []; timeout = false; stop_server = false; closed = [] }

pub data Signal : Type 0 where
  sigalrm sigterm other_signal : Signal

-- What `recv` gives for a client: bytes, the end of the stream, EAGAIN, or another error.
pub data Received : Type 0 where
  bytes ended would_block broken : Received

-- An event: on the listening socket with what `accept` gives (`none` is -1), on the signal pipe with
-- what `recv` gives, on a connection, or without input.
pub data Input : Type 0 where
  connection : Option ℕ → Input
  signals : Option (List Signal) → Input
  client : ℕ → Received → Input
  no_input : Input

-- `timer->expire = e` for the timer of `fd`.
unfoldable pub set_expire : ℕ → ℕ → List UtilTimer → List UtilTimer
set_expire fd e [] = []
set_expire fd e (x ∷ xs) =
    let rest = set_expire fd e xs in
    if x.user_data == fd then record x { expire = e } ∷ xs else x ∷ rest

-- `cb_func` for the connection, and the deletion of its timer.
unfoldable pub drop_client : ℕ → TimerServer → Option TimerServer
drop_client fd s = elim (locate fd s.timer_lst) [
  | none ↦ none
  | some _ ↦ some (record s { timer_lst = del_timer (some fd) s.timer_lst; closed = fd ∷ s.closed })
]

unfoldable pub extend_client : ℕ → ℕ → TimerServer → Option TimerServer
extend_client cur fd s = elim (locate fd s.timer_lst) [
  | none ↦ none
  | some _ ↦ some (record s {
    timer_lst = adjust_timer (some fd) (set_expire fd (cur + 3 * timeslot) s.timer_lst);
  })
]

unfoldable pub on_signals : List Signal → TimerServer → TimerServer
on_signals [] s = s
on_signals (sigalrm ∷ ss) s = on_signals ss (record s { timeout = true })
on_signals (sigterm ∷ ss) s = on_signals ss (record s { stop_server = true })
on_signals (other_signal ∷ ss) s = on_signals ss s

-- An event at the time `cur`.
unfoldable pub on_input : ℕ → Input → TimerServer → Option TimerServer
on_input cur (connection none) s = none
on_input cur (connection (some connfd)) s =
    let timer : UtilTimer = record { expire = cur + 3 * timeslot; user_data = connfd } in
    if ltb connfd fd_limit
    then some (record s { timer_lst = add_timer (some timer) s.timer_lst })
    else none
on_input cur (signals none) s = some s
on_input cur (signals (some ss)) s = some (on_signals ss s)
on_input cur (client sockfd bytes) s = extend_client cur sockfd s
on_input cur (client sockfd ended) s = drop_client sockfd s
on_input cur (client sockfd broken) s = drop_client sockfd s
on_input cur (client sockfd would_block) s = some s
on_input cur no_input s = some s

-- The events of one call of `epoll_wait`, each with its time.
unfoldable pub on_inputs : List (ℕ × Input) → TimerServer → Option TimerServer
on_inputs [] s = some s
on_inputs ((cur, i) ∷ es) s = do next ← on_input cur i s; on_inputs es next

abbrev pub close_all : List ℕ → List ℕ → List ℕ
close_all [] l = l
close_all (fd ∷ fds) l = close_all fds (fd ∷ l)

-- `timer_handler`; `tick` runs `cb_func` for the timers that have expired.
unfoldable pub timer_handler : ℕ → TimerServer → TimerServer
timer_handler cur s =
    let (fired, kept) = tick cur s.timer_lst in
    record s { timer_lst = kept; closed = close_all fired s.closed }

-- One turn of the main loop, with the time at its end.
unfoldable pub on_ready : List (ℕ × Input) → ℕ → TimerServer → Option TimerServer
on_ready es cur s = do
  next ← on_inputs es s
  some (if next.timeout then record (timer_handler cur next) { timeout = false } else next)

-- What `epoll_wait` gives; EINTR is an empty list of events.
pub data Wait : Type 0 where
  ready : List (ℕ × Input) → ℕ → Wait
  failed : Wait

-- The main loop; without further calls of `epoll_wait` it gives its state.
unfoldable pub serve : List Wait → TimerServer → Option TimerServer
serve [] s = some s
serve (failed ∷ ws) s = some s
serve (ready es cur ∷ ws) s =
    let rest = (do next ← on_ready es cur s; serve ws next) in
    if s.stop_server then some s else rest
