-- ===== src/Memcached/Tests.antt =====
-- A conversation with the server, and the theorems about it at concrete inputs.
use linux_socket_test.Prelude.{
  ℕ, ◌+◌, ◌≡◌, refl, List, [], ◌∷◌, ◌++◌, none, some, arith, codes, length, eq_bytes, break_at,
  first_crlf,
}
use linux_socket_test.Muduo.{list_buffer}
use linux_socket_test.Memcached.Item.{Item, plain_item, make_item, make_key_item, key}
use linux_socket_test.Memcached.Server.{get_item, store_item, equal, find, insert}
use linux_socket_test.Memcached.Tokens.{
  next_token, cut_token, strtoull, sign_part, unsigned_part, digits, signed_value, read,
}
use linux_socket_test.Memcached.Words.{value_from}
use linux_socket_test.Memcached.Session.{
  World, Env, Survives, read_command_line, invalid, send, do_request_command, dispatch, do_update,
  read_fields, finish_update, do_get, value_reply, store_data,
}
use linux_socket_test.Memcached.Loop.{fault, round, command_round, value_round, on_message, done}
use linux_socket_test.Memcached.Ends.{Ends, on_message_halts}
use linux_socket_test.Memcached.SplitLine.{searched, awaiting, split_line_missed}
use linux_socket_test.Memcached.Commands.{set_line, get_line, replied, key_item}
use linux_socket_test.Memcached.Conversation.{
  SetRequest, after_set, set_item, get_replies, get_missing_faults,
}
use linux_socket_test.Memcached.RoundTrip.{set_then_get, second_set_dropped}

-- The length of a key as its hash, the last digit of a number as its text, and a memory that still
-- holds a destroyed string.
abbrev env : Env
env = record {
  hash_range = λ k. length k;
  show_int = λ n. (48 + n) ∷ [];
  dangling = λ r log k. k;
  dangling_length = λ r log k. refl;
}

abbrev start : World
start = record {
  session = record {
    receive_state = read_command_line;
    search_pos = none;
    cur_command = invalid;
    cur_key = [];
    cur_flag = 0;
    cur_exptime = 0;
    cur_value_len = 0;
  };
  store = λ n. [];
  log = [];
}

abbrev old : Item
old = plain_item env.hash_range (codes "k") 1 0 (codes "x")

abbrev filled : World
filled = record start { store = λ n. old ∷ [] }

abbrev k : List ℕ
k = codes "k"

abbrev request : List ℕ
request = codes "set k 5 0 3"

abbrev talk : List ℕ
talk = codes "set k 5 0 3\r\nabc\r\nget k\r\n"

-- The whole conversation, run.
talk_runs :
    on_message list_buffer env 4 start talk
    ≡ some (
        done
          (searched 0 (
            replied env
              (after_set list_buffer env start k (codes "5") (codes "0") (codes "3") (codes "abc"))
              k
              (set_item list_buffer env k (codes "5") (codes "0") (codes "abc"))))
          [])
unfolding on_message round command_round value_round do_request_command next_token cut_token
    break_at dispatch eq_bytes do_update read_fields read strtoull sign_part unsigned_part digits
    signed_value finish_update store_data make_item store_item insert find do_get make_key_item
    get_item first_crlf value_from value_reply key
talk_runs = refl

is_set : SetRequest k (codes "5") (codes "0") (codes "3") (codes "abc")
unfolding value_from
is_set = omega arith

on_message_halts_example : Ends list_buffer env (on_message list_buffer env 30 start talk)
on_message_halts_example = on_message_halts list_buffer env 30 start talk tt (omega arith)

split_line_missed_example :
    let n = length (codes "get k") in
    (on_message list_buffer env 1 (awaiting start) (codes "get k\r")
      ≡ some (done (searched 6 start) (codes "get k\r")))
    × (on_message list_buffer env 1 (searched 6 start) (codes "get k\r\n")
        ≡ some (done (searched 7 start) (codes "get k\r\n")))
    × (codes "get k\r\n" ≡ codes "get k" ++ 13 ∷ 10 ∷ [])
split_line_missed_example =
    split_line_missed list_buffer env 0 start (codes "get k\r") (codes "get k") refl (omega arith)
      refl

get_replies_example :
    (b' : List ℕ) × (w' : World) × (on_message list_buffer env 1
        (awaiting filled)
        (codes "get k\r\n")
      ≡ on_message list_buffer env 0 (awaiting w') b')
    × (b' ≡ [])
    × (w'.store ≡ filled.store)
    × (w'.log ≡ send (codes "VALUE k 1 1\r\nx\r\nEND\r\n") ∷ [])
unfolding get_line get_item find equal eq_bytes key Survives
get_replies_example =
    get_replies list_buffer env 0 filled (codes "get k\r\n") k (codes "x") [] 1 0 refl (omega arith)
      (omega arith) (omega arith) (refl, refl) refl

get_missing_faults_example :
    on_message list_buffer env 1 (awaiting start) (codes "get k\r\n") ≡ some fault
unfolding get_line get_item find
get_missing_faults_example =
    get_missing_faults list_buffer env 0 start (codes "get k\r\n") k [] refl (omega arith)
      (omega arith) (omega arith) refl

set_then_get_example :
    (b' : List ℕ) × (w' : World) × (on_message list_buffer env 3 (awaiting start) talk
      ≡ on_message list_buffer env 0 (awaiting w') b')
    × (b' ≡ [])
    × (w'.log ≡ send (codes "STORED\r\n") ∷ send (codes "VALUE k 5 3\r\nabc\r\nEND\r\n") ∷ [])
unfolding set_line get_line get_item find value_from Survives
set_then_get_example =
    set_then_get list_buffer env 0 start talk k (codes "5") (codes "0") (codes "3") (codes "abc") []
      refl is_set refl (refl, refl)

second_set_dropped_example :
    (b' : List ℕ) × (w' : World) × (on_message list_buffer env 2 (awaiting filled) talk
      ≡ on_message list_buffer env 0 w' b')
    × (w'.log ≡ send (codes "STORED\r\n") ∷ [])
    × (get_item w'.store (key_item env k) ≡ some old)
unfolding set_line get_item find equal eq_bytes key
second_set_dropped_example =
    second_set_dropped list_buffer env 0 filled talk k (codes "5") (codes "0") (codes "3")
      (codes "abc") (codes "get k\r\n") old refl is_set refl
