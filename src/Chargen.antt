-- ===== src/Chargen.antt =====
-- chargen/chargen.h and chargen.cpp: the message that is sent over and over, and what is counted.
-- What is sent to a connection is appended to a list of bytes. The clock is an argument.
pub mod Pattern
mod Tests
use linux_socket_test.Prelude.{
  ℕ, zero, suc, ◌+◌, ◌-◌, ◌%◌, ◌^◌, List, [], ◌∷◌, ◌++◌, Bool, if◌then◌else◌, length, take, drop,
}

-- The loop that fills `line`, from the byte `c` on.
unfoldable pub fill_line : ℕ → ℕ → List ℕ
fill_line zero c = []
fill_line (suc k) c = c ∷ fill_line k (c + 1)

abbrev pub line : List ℕ
line = fill_line (127 - 33) 33 ++ fill_line (127 - 33) 33

-- The loop over the last `k` starts of a row, from `i` on.
unfoldable pub add_rows : ℕ → ℕ → List ℕ → List ℕ
add_rows zero i message = message
add_rows (suc k) i message = add_rows k (i + 1) (message ++ (take 72 (drop i line) ++ 10 ∷ []))

pub record ChargenServer : Type 0 where
  pub message : List ℕ
  pub transferred : ℕ
  pub start_time : ℕ

unfoldable pub new : ℕ → ChargenServer
new now = record { message = add_rows (127 - 33) 0 []; transferred = 0; start_time = now }

-- `onConnection` for a connection that is up or down, with what has been sent to it.
unfoldable pub on_connection : Bool → ChargenServer → List ℕ → List ℕ
on_connection connected s sent = if connected then sent ++ s.message else sent

-- `onWriteComplete`; the counter is an `int64_t`.
unfoldable pub on_write_complete : ChargenServer → List ℕ → ChargenServer × List ℕ
on_write_complete s sent =
    (record s { transferred = (s.transferred + length s.message) % 2 ^ 64 }, sent ++ s.message)

-- `printThroughput`: what it divides, the bytes and the time, and the new state.
unfoldable pub print_throughput : ℕ → ChargenServer → (ℕ × ℕ) × ChargenServer
print_throughput end_time s =
    ((s.transferred, end_time - s.start_time), record s { transferred = 0; start_time = end_time })
