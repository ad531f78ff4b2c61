-- ===== src/Ttcp/Libev.antt =====
-- ttcp/ttcp_libev.cpp: the server's callback for input from a client.
-- An `int32_t` is its bit pattern below 2 ^ 32. A client is known by a number, and belongs to the
-- server as long as it stands in `ev_clients`, which holds the only pointer that keeps it alive.
use linux_socket_test.Prelude.{
  ℕ, zero, suc, ◌+◌, List, [], ◌∷◌, ◌++◌, Bool, ◌||◌, leb, ltb, ◌==◌, Option, none, some,
  if◌then◌else◌, length,
}
use linux_socket_test.Tbuf
use linux_socket_test.Tbuf.{
  Tbuf, readable_bytes, read_int32, retrieve, readfd, ReadvResult, failed, received,
}
use linux_socket_test.Ttcp.Blocking.{max_buffer_length, htonl, is_negative, total_len}

pub data RecvState : Type 0 where
  except_frame_size except_frame : RecvState

-- `written` is what was handed to `write`, whose result the code does not look at.
pub record EvClient : Type 0 where
  pub id : ℕ
  pub state : RecvState
  pub read_number : ℕ
  pub input_buffer : Tbuf
  pub number : ℕ
  pub message_length : ℕ
  pub written : List ℕ

unfoldable pub new : ℕ → EvClient
new id = record {
  id = id;
  state = except_frame_size;
  read_number = 0;
  input_buffer = Tbuf.new;
  number = 0;
  message_length = 0;
  written = [];
}

-- `EvServer::delete_client`: the first entry for the client goes.
unfoldable pub delete_client : List ℕ → ℕ → List ℕ
delete_client [] id = []
delete_client (x ∷ xs) id = let rest = delete_client xs id in if x == id then xs else x ∷ rest

-- How a turn of the loop ends: it goes on or is left with the client, or with a client that was
-- deleted; or the process ends by `exit(1)` or an assertion, or reads outside a buffer.
pub data Turn : Type 0 where
  goes_on leaves : EvClient → Turn
  deleted : EvClient → Turn
  stops : Turn

abbrev pub is_wrong : ℕ → ℕ → Bool
is_wrong number len =
    (number == 0 || is_negative number)
    || ((len == 0 || is_negative len) || ltb max_buffer_length len)

unfoldable pub frame_size_turn : EvClient → Turn
frame_size_turn c =
    if leb 8 (readable_bytes c.input_buffer)
    then elim (read_int32 c.input_buffer) [
      | none ↦ stops
      | some (number, b) ↦ elim (read_int32 b) [
        | none ↦ stops
        | some (len, b') ↦
            if is_wrong number len
            then stops
            else goes_on (record c {
              state = except_frame;
              input_buffer = b';
              number = number;
              message_length = len;
            })
      ]
    ]
    else leaves c

unfoldable pub frame_turn : EvClient → Turn
frame_turn c =
    if leb (total_len c.message_length) (readable_bytes c.input_buffer)
    then elim (read_int32 c.input_buffer) [
      | none ↦ stops
      | some (payload_len, b) ↦
          if payload_len == c.message_length
          then elim (retrieve b c.message_length) [
            | none ↦ stops
            | some b' ↦
                let d = record c {
                  input_buffer = b';
                  written = c.written ++ htonl payload_len;
                  read_number = c.read_number + 1;
                } in
                if leb c.number (c.read_number + 1) then deleted d else goes_on d
          ]
          else stops
    ]
    else leaves c

unfoldable pub turn : EvClient → Turn
turn c = elim c.state [ except_frame_size ↦ frame_size_turn c | except_frame ↦ frame_turn c ]

-- How the callback ends: it returns, the process ends, or the loop goes on with a client that was
-- deleted. `spent` is that the fuel was not enough.
pub data Callback : Type 0 where
  returned : EvClient → List ℕ → Callback
  aborted : Callback
  use_after_free : EvClient → List ℕ → Callback
  spent : Callback

unfoldable pub loop : ℕ → EvClient → List ℕ → Callback
loop zero c ev_clients = spent
loop (suc fuel) c ev_clients = elim (turn c) [
  | goes_on d ↦ loop fuel d ev_clients
  | leaves d ↦ returned d ev_clients
  | deleted d ↦ use_after_free d (delete_client ev_clients d.id)
  | stops ↦ aborted
]

-- `client_read_cb`; it asserts that `readfd` gave bytes.
unfoldable pub client_read_cb : EvClient → List ℕ → ReadvResult → Callback
client_read_cb c ev_clients failed = aborted
client_read_cb c ev_clients (received bs) = elim (readfd c.input_buffer (received bs)) [
  | none ↦ aborted
  | some b ↦
      if ltb 0 (length bs)
      then loop (readable_bytes b + 2) (record c { input_buffer = b }) ev_clients
      else aborted
]

-- `server_read_cb`, with what `accept` gives: a new client joins the server.
unfoldable pub server_read_cb : List ℕ → Option ℕ → Option (EvClient × List ℕ)
server_read_cb ev_clients none = none
server_read_cb ev_clients (some id) = some (new id, ev_clients ++ id ∷ [])
