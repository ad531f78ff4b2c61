-- ===== src/Memcached/Session.antt =====
-- memcached/server/session.h and session.cpp: the protocol of a connection.
use linux_socket_test.Prelude.{
  ℕ, List, [], ◌∷◌, ◌++◌, Option, none, some, Bool, true, false, ◌&&◌, leb, not, if◌then◌else◌,
  eq_bytes, codes, length, ◌≡◌,
}
use linux_socket_test.Memcached.Item.{Item, is_negative, make_item, make_key_item, value}
use linux_socket_test.Memcached.Server.{Shards, store_item, get_item}
use linux_socket_test.Memcached.Tokens.{Tokens, next_token, read}

pub data ReceiveState : Type 0 where
  read_command_line read_value : ReceiveState

pub data CommandType : Type 0 where
  invalid set get quit : CommandType

-- `search_pos` is the address in `curSearchPos_`, and `none` the null pointer.
pub record Session : Type 0 where
  pub receive_state : ReceiveState
  pub search_pos : Option ℕ
  pub cur_command : CommandType
  pub cur_key : List ℕ
  pub cur_flag : ℕ
  pub cur_exptime : ℕ
  pub cur_value_len : ℕ

unfoldable pub new : Session
new = record {
  receive_state = read_command_line;
  search_pos = none;
  cur_command = invalid;
  cur_key = [];
  cur_flag = 0;
  cur_exptime = 0;
  cur_value_len = 0;
}

-- What a session asks of its connection.
pub data Event : Type 0 where
  send : List ℕ → Event
  shutdown : Event

-- The session, the store that all sessions share, and the calls made on the connection, in order.
pub record World : Type 0 where
  pub session : Session
  pub store : Shards
  pub log : List Event

abbrev pub emit : Event → World → World
emit e w = record w { log = w.log ++ e ∷ [] }

unfoldable pub send_client_error : World → World
send_client_error = emit (send (codes "CLIENT_ERROR bad command line format\r\n"))

-- The three calls of `r.read`, each made only if the one before it succeeded.
unfoldable pub read_fields : Session → Tokens → Bool × Session
read_fields s it = elim (read it) [
  | none ↦ (false, s)
  | some (flag, it1) ↦
      let s1 = record s { cur_flag = flag } in
      elim (read it1) [
        | none ↦ (false, s1)
        | some (exptime, it2) ↦
            let s2 = record s1 { cur_exptime = exptime } in
            elim (read it2) [
              | none ↦ (false, s2)
              | some (len, _) ↦ (true, record s2 { cur_value_len = len })
            ]
      ]
]

-- The tests of `doUpdate` on the fields that were read.
abbrev pub in_range : Session → Bool
in_range s =
    not (is_negative s.cur_flag)
    && not (is_negative s.cur_exptime)
    && not (is_negative s.cur_value_len)

abbrev pub max_value_len : ℕ
max_value_len = 1048576

-- `doUpdate` behind the tests.
unfoldable pub finish_update : Bool → World → Bool × World
finish_update good w =
    if good
    then (if leb max_value_len w.session.cur_value_len
        then (false, emit (send (codes "SERVER_ERROR object too large for cache\r\n")) w)
        else (true, w))
    else (false, send_client_error w)

unfoldable pub do_update : World → Tokens → Bool × World
do_update w none = (false, send_client_error w)
do_update w (some (tok, after)) =
    let s = record w.session { cur_key = tok } in
    let (good, s') =
      if leb (length tok) 250 then read_fields s (next_token after) else (false, s) in
    finish_update (good && in_range s') (record w { session = s' })

-- The two places where `doGet` reads the bytes of `key`.
pub data Reading : Type 0 where
  look_up print : Reading

-- What the calls of muduo and boost give: the hash of a key, and an `int` as `LogStream` prints it.
-- `doGet` keeps its key as a `StringPiece` to a string that is destroyed at the end of the statement:
-- `dangling` is what is read through it in its place, which may be anything of the same length, at
-- each of the two readings and after each log of calls.
pub record Env : Type 0 where
  pub hash_range : List ℕ → ℕ
  pub show_int : ℕ → List ℕ
  pub dangling : Reading → List Event → List ℕ → List ℕ
  pub dangling_length :
      (r : Reading) (log : List Event) (k : List ℕ) → length (dangling r log k) ≡ length k

-- The destroyed string's memory still holds the key at both readings.
unfoldable pub Survives : Env → List Event → List ℕ → Type 0
Survives env log k = (env.dangling look_up log k ≡ k) × (env.dangling print log k ≡ k)

module _ (env : Env) where
  unfoldable pub value_reply : List ℕ → Item → List ℕ
  value_reply key i =
      codes "VALUE "
      ++ (key
          ++ (b' '
              ∷ (env.show_int i.flag
                  ++ (b' '
                      ∷ (env.show_int i.value_len
                          ++ (codes "\r\n" ++ (value i ++ codes "\r\nEND\r\n")))))))

  -- `none` is a fault: an assertion that fails, or a call through the null pointer, which `getItem`
  -- returns for a missing key.
  unfoldable pub do_get : World → Tokens → Option (Bool × World)
  do_get w none = some (false, send_client_error w)
  do_get w (some (tok, after)) =
      elim (make_key_item env.hash_range (env.dangling look_up w.log tok)) [
        | none ↦ none
        | some k ↦ elim (get_item w.store k) [
          | none ↦ none
          | some i ↦ some (true, emit (send (value_reply (env.dangling print w.log tok) i)) w)
        ]
      ]

  abbrev set_command : CommandType → World → World
  set_command c w = record w { session = record (w.session) { cur_command = c } }

  unfoldable pub dispatch : World → List ℕ → Tokens → Option (Bool × World)
  dispatch w command it =
      if eq_bytes command (codes "get")
      then do_get (set_command get w) it
      else if eq_bytes command (codes "set")
      then some (do_update (set_command set w) it)
      else if eq_bytes command (codes "quit")
      then some (false, emit shutdown (set_command quit w))
      else some (false, w)

  unfoldable pub do_request_command : World → List ℕ → Option (Bool × World)
  do_request_command w request = elim (next_token request) [
    | none ↦ some (false, w)
    | some (command, after) ↦ dispatch w command (next_token after)
  ]

  unfoldable pub store_data : World → List ℕ → Option World
  store_data w bs =
      let s = w.session in
      elim (make_item env.hash_range s.cur_key s.cur_flag s.cur_exptime bs) [
        | none ↦ none
        | some i ↦ some (record w { store = store_item w.store i })
      ]
