-- ===== src/Memcached/Commands.antt =====
-- The commands `set` and `get` of a session: from the printed line to the store and the reply.
use linux_socket_test.Prelude.{
  ℕ, ◌^◌, ◌≡◌, ◌<◌, ◌≤◌, ◌∙◌, List, [], ◌∷◌, ◌++◌, Option, none, some, true, arith, codes, eq_bytes,
  length, Option-cases, inl, inr,
}
use linux_socket_test.Memcached.Item.{Item, make_key_item, plain_item, make_item-plain}
use linux_socket_test.Memcached.Server.{get_item}
use linux_socket_test.Memcached.Tokens.{next_token}
use linux_socket_test.Memcached.Words.{
  IsWord, IsNumber, number, next_token-word, next_token-last, next_token-blank, read-number,
  read-number_last,
}
use linux_socket_test.Memcached.Session.{
  World, Session, Env, set, get, emit, send, do_update, read_fields, finish_update, dispatch,
  do_request_command, do_get, value_reply, look_up, print,
}

-- "set key flag exptime length".
unfoldable pub set_line : List ℕ → List ℕ → List ℕ → List ℕ → List ℕ
set_line k fs es ns = codes "set" ++ b' ' ∷ (k ++ b' ' ∷ (fs ++ b' ' ∷ (es ++ b' ' ∷ ns)))

-- "get key".
unfoldable pub get_line : List ℕ → List ℕ
get_line k = codes "get" ++ b' ' ∷ k

-- The session with what a `set` line gave it.
abbrev pub with_update : World → List ℕ → ℕ → ℕ → ℕ → World
with_update w k flag exptime len = record w {
  session = record (w.session) {
    cur_command = set;
    cur_key = k;
    cur_flag = flag;
    cur_exptime = exptime;
    cur_value_len = len;
  };
}

pub IsWord-length : (k : List ℕ) → IsWord k → 0 < length k
IsWord-length [] h = absurd h
IsWord-length (x ∷ k) h = omega arith

module _ (fs es ns : List ℕ) (hf : IsNumber fs) (he : IsNumber es) (hn : IsNumber ns)
    (bf : number fs < 2 ^ 31) (be : number es < 2 ^ 31) (bn : number ns < 2 ^ 31) where
  read_fields-numbers :
      (s : Session)
      → read_fields s (next_token (fs ++ b' ' ∷ (es ++ b' ' ∷ ns))) ≡ (
        true,
        record s { cur_flag = number fs; cur_exptime = number es; cur_value_len = number ns },
      )
  unfolding read_fields
  read_fields-numbers s =
      rw (read-number fs (es ++ b' ' ∷ ns) hf bf, read_fields)
        (rw (read-number es ns he be) (rw (read-number_last ns hn bn)))

  do_update-numbers :
      (w : World) (k : List ℕ)
      → length k ≤ 250
      → number ns < 1048576
      → do_update w (some (k, b' ' ∷ (fs ++ b' ' ∷ (es ++ b' ' ∷ ns)))) ≡ (
        true,
        record w {
          session = record (w.session) {
            cur_key = k;
            cur_flag = number fs;
            cur_exptime = number es;
            cur_value_len = number ns;
          };
        },
      )
  unfolding do_update finish_update
  do_update-numbers w k hk small = ground (
    arith,
    next_token-blank (fs ++ b' ' ∷ (es ++ b' ' ∷ ns)),
    read_fields-numbers (record (w.session) { cur_key = k }),
  )

module _ (env : Env) where
  set_request :
      (w w' : World) (k after : List ℕ)
      → IsWord k
      → do_update
          (record w { session = record (w.session) { cur_command = set } })
          (some (k, b' ' ∷ after))
        ≡ (true, w')
      → do_request_command env w (codes "set" ++ b' ' ∷ (k ++ b' ' ∷ after)) ≡ some (true, w')
  unfolding do_request_command dispatch eq_bytes
  set_request w w' k after hk e =
      rw (next_token-word (codes "set") (k ++ b' ' ∷ after) (omega arith), do_request_command)
        (rw (next_token-blank (k ++ b' ' ∷ after)) (rw (next_token-word k after hk) (rw e)))

  -- A printed `set` line with a key of 1 to 250 bytes and no blank, a flag and a time that fit an
  -- `int`, and a length below one megabyte is accepted, and sets the session's fields to what was
  -- printed.
  pub do_request_command-set_line :
      (w : World) (k fs es ns : List ℕ)
      → IsWord k
      → length k ≤ 250
      → IsNumber fs
      → IsNumber es
      → IsNumber ns
      → number fs < 2 ^ 31
      → number es < 2 ^ 31
      → number ns < 1048576
      → do_request_command env w (set_line k fs es ns)
        ≡ some (true, with_update w k (number fs) (number es) (number ns))
  unfolding set_line
  do_request_command-set_line w k fs es ns hk short hf he hn bf be bn =
      set_request w (with_update w k (number fs) (number es) (number ns)) k
        (fs ++ b' ' ∷ (es ++ b' ' ∷ ns)) hk
        (do_update-numbers fs es ns hf he hn bf be (omega arith)
          (record w { session = record (w.session) { cur_command = set } }) k short bn)

  -- The item with only a key by which a `get` looks up the store.
  abbrev pub key_item : List ℕ → Item
  key_item k = plain_item env.hash_range k 0 0 []

  -- The world after the reply to a `get`.
  abbrev pub replied : World → List ℕ → Item → World
  replied w k i = record w {
    session = record (w.session) { cur_command = get };
    log = w.log ++ send (value_reply env (env.dangling print w.log k) i) ∷ [];
  }

  -- The item that is looked up.
  abbrev pub looked_up : World → List ℕ → Option Item
  looked_up w k = get_item w.store (key_item (env.dangling look_up w.log k))

  get_request :
      (w : World) (k : List ℕ)
      → IsWord k
      → do_request_command env w (get_line k)
        ≡ do_get env
            (record w { session = record (w.session) { cur_command = get } })
            (some (k, []))
  unfolding do_request_command dispatch eq_bytes get_line
  get_request w k hk =
      rw (next_token-word (codes "get") k (omega arith), do_request_command)
        (rw (next_token-blank k) (rw (next_token-last k hk)))

  do_get-found :
      (w : World) (k : List ℕ) (i : Item)
      → 0 < length k
      → length k < 2 ^ 31
      → looked_up w k ≡ some i
      → do_get env w (some (k, []))
        ≡ some (true, emit (send (value_reply env (env.dangling print w.log k) i)) w)
  unfolding do_get make_key_item
  do_get-found w k i pos short e =
      let same = env.dangling_length look_up w.log k in
      rw
        (
          make_item-plain env.hash_range (env.dangling look_up w.log k) [] 0 0 (omega (arith, same))
              (omega (arith, same)) (omega arith) (omega arith),
          do_get,
        )
        (rw e)

  do_get-missing :
      (w : World) (k : List ℕ)
      → 0 < length k
      → length k < 2 ^ 31
      → looked_up w k ≡ none
      → do_get env w (some (k, [])) ≡ none
  unfolding do_get make_key_item
  do_get-missing w k pos short e =
      let same = env.dangling_length look_up w.log k in
      rw
        (
          make_item-plain env.hash_range (env.dangling look_up w.log k) [] 0 0 (omega (arith, same))
              (omega (arith, same)) (omega arith) (omega arith),
          do_get,
        )
        (rw e)

  -- A printed `get` line is answered, on every outcome of the look-up of the bytes that the dangling
  -- key shows: with the item's flag, length and value, or with a call through a null pointer.
  pub do_request_command-get_line :
      (w : World) (k : List ℕ)
      → IsWord k
      → length k < 2 ^ 31
      → do_request_command env w (get_line k)
        ≡ elim (looked_up w k) [ none ↦ none | some i ↦ some (true, replied w k i) ]
  do_request_command-get_line w k hk short =
      let positive : 0 < length k = IsWord-length k hk in
      let w' = record w { session = record (w.session) { cur_command = get } } in
      elim (Option-cases (looked_up w k)) [
        | inl e ↦ get_request w k hk ∙ do_get-missing w' k positive short e ∙ rw e
        | inr (i, e) ↦ get_request w k hk ∙ do_get-found w' k i positive short e ∙ rw e
      ]
