-- ===== src/TimerServer/Closed.antt =====
-- list_timer.cpp: which descriptors a turn of the main loop closes, and how often.
use linux_socket_test.Prelude.{
  ℕ, ◌+◌, ◌*◌, ◌≡◌, refl, List, [], ◌∷◌, none, some, Bool, true, false, ◌==◌, leb, if◌then◌else◌,
  arith,
}
use linux_socket_test.ListTimer.{UtilTimer}
use linux_socket_test.ListTimer.Expiry.{expired}
use linux_socket_test.TimerServer.{
  timeslot, bytes, ended, would_block, broken, Input, connection, signals, client, no_input,
  close_all,
}
use linux_socket_test.TimerServer.Times.{expire_of, are_unique}
use linux_socket_test.TimerServer.Table.{Table, Implements}

-- How often a descriptor stands in a log.
unfoldable pub count : ℕ → List ℕ → ℕ
count fd [] = 0
count fd (x ∷ xs) = let rest = count fd xs in if x == fd then rest + 1 else rest

-- The log behind an event: a client that has ended or broken is closed.
abbrev pub closed_by : Input → List ℕ → List ℕ
closed_by (connection c) log = log
closed_by (signals ss) log = log
closed_by (client fd bytes) log = log
closed_by (client fd ended) log = fd ∷ log
closed_by (client fd broken) log = fd ∷ log
closed_by (client fd would_block) log = log
closed_by no_input log = log

-- How often an event, or all events of one call of `epoll_wait`, end the connection.
abbrev pub ends_by : ℕ → Input → ℕ
ends_by fd (connection c) = 0
ends_by fd (signals ss) = 0
ends_by fd (client i bytes) = 0
ends_by fd (client i ended) = if i == fd then 1 else 0
ends_by fd (client i broken) = if i == fd then 1 else 0
ends_by fd (client i would_block) = 0
ends_by fd no_input = 0

unfoldable pub ends : ℕ → List (ℕ × Input) → ℕ
ends fd [] = 0
ends fd ((cur, i) ∷ es) = ends_by fd i + ends fd es

-- Whether a connection of the table is open and idle for three time slots.
abbrev pub idle : ℕ → ℕ → Table → Bool
idle cur fd f = elim (f fd) [ none ↦ false | some last ↦ leb (last + 3 * timeslot) cur ]

pub count-closed_by :
    (fd : ℕ) (i : Input) (log : List ℕ) → count fd (closed_by i log) ≡ count fd log + ends_by fd i
unfolding count
count-closed_by fd (connection c) log = omega arith
count-closed_by fd (signals ss) log = omega arith
count-closed_by fd (client x bytes) log = omega arith
count-closed_by fd (client x ended) log = ground arith
count-closed_by fd (client x broken) log = ground arith
count-closed_by fd (client x would_block) log = omega arith
count-closed_by fd no_input log = omega arith

count-close_all :
    (fd : ℕ) (fds log : List ℕ) → count fd (close_all fds log) ≡ count fd log + count fd fds
unfolding count
count-close_all fd [] log = omega arith
count-close_all fd (x ∷ xs) log = ground (arith, count-close_all fd xs (x ∷ log))

count-expired :
    (fd cur : ℕ) (ts : List UtilTimer)
    → are_unique ts ≡ true
    → count fd (expired cur ts)
      ≡ elim (expire_of fd ts) [ none ↦ 0 | some e ↦ if leb e cur then 1 else 0 ]
unfolding count expired expire_of are_unique
count-expired fd cur [] u = refl
count-expired fd cur (t ∷ ts) u = ground (arith, u, count-expired fd cur ts)

-- The callbacks of the timers that have expired close each idle connection once, and nothing else.
pub count-expired_idle :
    (fd now cur : ℕ) (ts : List UtilTimer) (f : Table) (log : List ℕ)
    → Implements now ts f
    → count fd (close_all (expired cur ts) log) ≡ count fd log + (if idle cur fd f then 1 else 0)
count-expired_idle fd now cur ts f log v =
    ground
      (arith, count-close_all fd (expired cur ts) log, count-expired fd cur ts v.unique, v.times fd)
