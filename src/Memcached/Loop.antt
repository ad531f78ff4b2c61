-- ===== src/Memcached/Loop.antt =====
-- memcached/server/session.cpp, `Session::onMessage`: the loop that consumes the buffer.
use linux_socket_test.Prelude.{
  ℕ, zero, suc, ◌+◌, ◌-◌, ◌&&◌, Option, none, some, Bool, true, false, leb, if◌then◌else◌, eq_bytes,
  codes, length, take, drop,
}
use linux_socket_test.Muduo.{BufferOps}
use linux_socket_test.Memcached.Session.{
  World, read_command_line, read_value, set, Env, CommandType, do_request_command, store_data, emit,
  send,
}

abbrev pub is_set : CommandType → Bool
is_set set = true
is_set _ = false

-- Where `findCRLF` starts, as a distance from `peek()`, for a buffer of `n` readable bytes from the
-- address `a` on; `none` is a failing assertion of `findCRLF`, that the pointer is not outside of them.
abbrev pub search_from : Option ℕ → ℕ → ℕ → Option ℕ
search_from none a n = some 0
search_from (some p) a n = if leb a p && leb p (a + n) then some (p - a) else none

-- The state after a command line: the search starts afresh, and a good `set` waits for its value.
abbrev pub after_command : Bool → World → World
after_command good w =
    let s = record (w.session) { search_pos = none } in
    record w {
      session =
          if good
          then (if is_set s.cur_command then record s { receive_state = read_value } else s)
          else s;
    }

abbrev pub await_command : World → World
await_command w = record w { session = record (w.session) { receive_state = read_command_line } }

abbrev pub stored : World → World
stored w = if is_set w.session.cur_command then emit (send (codes "STORED\r\n")) w else w

module _ (m : BufferOps) (env : Env) where
  open m use {Buffer, peek, address, find_crlf, retrieve}

  -- What one round of the loop does: go on, leave the loop, or fail.
  pub data Round : Type 0 where
    next : World → Buffer → Round
    done : World → Buffer → Round
    fault : Round

  unfoldable pub command_round : World → Buffer → Round
  command_round w b = elim (search_from w.session.search_pos (address b) (length (peek b))) [
    | none ↦ fault
    | some start ↦ elim (find_crlf b start) [
      | none ↦
          done
            (record w {
              session = record (w.session) { search_pos = some (address b + length (peek b)) };
            })
            b
      | some crlf ↦ elim (do_request_command env w (take crlf (peek b))) [
        | none ↦ fault
        | some (good, w') ↦ next (after_command good w') (retrieve b (crlf + 2))
      ]
    ]
  ]

  unfoldable pub value_round : World → Buffer → Round
  value_round w b =
      let len = w.session.cur_value_len in
      let b' = retrieve b (len + 2) in
      if leb (len + 2) (length (peek b))
      then (if eq_bytes (take 2 (drop len (peek b))) (codes "\r\n")
          then elim (store_data env w (take len (peek b))) [
            | none ↦ fault
            | some w' ↦ next (await_command (stored w')) b'
          ]
          else next (await_command w) b')
      else done w b

  unfoldable pub round : World → Buffer → Round
  round w b = elim w.session.receive_state [
    | read_command_line ↦ command_round w b
    | read_value ↦ value_round w b
  ]

  -- `onMessage`; `none` at the end of the fuel.
  unfoldable pub on_message : ℕ → World → Buffer → Option Round
  on_message zero w b = none
  on_message (suc fuel) w b = elim (round w b) [
    | next w' b' ↦ on_message fuel w' b'
    | done w' b' ↦ some (done w' b')
    | fault ↦ some fault
  ]
