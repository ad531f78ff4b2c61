-- ===== src/Memcached/Conversation.antt =====
-- Whole requests through `onMessage`: a value is stored, and read back.
use linux_socket_test.Prelude.{
  ℕ, suc, ◌+◌, ◌^◌, ◌≡◌, ◌<◌, ◌≤◌, refl, ap, sym, ◌∙◌, List, [], ◌∷◌, ◌++◌, none, some, Bool, true,
  arith, Free, Free-append, codes, eq_bytes, length, take, drop, eq_bytes_refl, drop-length-append,
  length-append,
}
use linux_socket_test.Muduo.{BufferOps, line_found, line_bytes, line_rest}
use linux_socket_test.Memcached.Item.{Item, plain_item, make_item-plain, value-plain}
use linux_socket_test.Memcached.Server.{store_item, get_item}
use linux_socket_test.Memcached.Words.{IsWord, IsNumber, number, AreDigits}
use linux_socket_test.Memcached.Session.{
  World, Env, Survives, send, value_reply, read_value, store_data, do_request_command,
}
use linux_socket_test.Memcached.Loop.{
  next, fault, command_round, value_round, round, on_message, after_command, await_command, stored,
}
use linux_socket_test.Memcached.Ends.{round-command, round-value}
use linux_socket_test.Memcached.SplitLine.{awaiting}
use linux_socket_test.Memcached.Commands.{
  IsWord-length, set_line, get_line, with_update, replied, key_item, looked_up,
  do_request_command-set_line, do_request_command-get_line,
}

AreDigits-Free : (ds : List ℕ) → AreDigits ds → Free 13 ds
AreDigits-Free [] h = tt
AreDigits-Free (x ∷ xs) (lo, hi, h) = (omega arith, AreDigits-Free xs h)

IsNumber-Free : (ds : List ℕ) → IsNumber ds → Free 13 ds
IsNumber-Free [] h = absurd h
IsNumber-Free (x ∷ xs) h = AreDigits-Free (x ∷ xs) h

-- What a client may print in a `set` request.
pub record SetRequest (k fs es ns v : List ℕ) : Type 0 where
  pub word : IsWord k
  pub one_line : Free 13 k
  pub short : length k ≤ 250
  pub flag : IsNumber fs
  pub time : IsNumber es
  pub len : IsNumber ns
  pub flag_fits : number fs < 2 ^ 31
  pub time_fits : number es < 2 ^ 31
  pub len_fits : number ns < 1048576
  pub announced : length v ≡ number ns

module _ (m : BufferOps) (env : Env) where
  open m use {Buffer, peek, find_crlf, retrieve, peek-retrieve}

  -- One round over a complete command line.
  line_round :
      (w w' : World) (b : Buffer) (l rest : List ℕ) (good : Bool)
      → peek b ≡ l ++ 13 ∷ 10 ∷ rest
      → Free 13 l
      → do_request_command env (awaiting w) l ≡ some (good, w')
      → round m env (awaiting w) b ≡ next (after_command good w') (retrieve b (length l + 2))
  unfolding command_round
  line_round w w' b l rest good e free h =
      round-command m env (awaiting w) b refl
      ∙ rw (line_found m b l rest e free, command_round) (rw (line_bytes m b l rest e) (rw h))

  -- One round over a complete value.
  value_step :
      (w : World) (b : Buffer) (v rest : List ℕ)
      → peek b ≡ v ++ 13 ∷ 10 ∷ rest
      → length v ≡ w.session.cur_value_len
      → w.session.receive_state ≡ read_value
      → 0 < length w.session.cur_key
      → length w.session.cur_key < 2 ^ 31
      → length v < 2 ^ 31
      → w.session.cur_exptime < 2 ^ 31
      → round m env w b
        ≡ next
            (await_command (
              stored (record w {
                store = store_item w.store (
                    plain_item env.hash_range w.session.cur_key w.session.cur_flag
                      w.session.cur_exptime v);
              })))
            (retrieve b (length v + 2))
  unfolding value_round store_data
  value_step w b v rest e size state pos short small time =
      let front : take w.session.cur_value_len (peek b) ≡ v =
        ap (λ k. take k (peek b)) (sym size) ∙ line_bytes m b v rest e in
      let behind : drop w.session.cur_value_len (peek b) ≡ 13 ∷ 10 ∷ rest =
        ap (λ k. drop k (peek b)) (sym size)
        ∙ ap (drop (length v)) e
        ∙ drop-length-append v (13 ∷ 10 ∷ rest) in
      let ends : eq_bytes (take 2 (drop w.session.cur_value_len (peek b))) (codes "\r\n") ≡ true =
        ap (λ l. eq_bytes (take 2 l) (codes "\r\n")) behind ∙ eq_bytes_refl (13 ∷ 10 ∷ []) in
      let fits : w.session.cur_value_len + 2 ≤ length (peek b) =
        omega (arith, ap length e, length-append v (13 ∷ 10 ∷ rest)) in
      round-value m env w b state
      ∙ ground (
        arith,
        front,
        ends,
        fits,
        size,
        make_item-plain env.hash_range w.session.cur_key v w.session.cur_flag w.session.cur_exptime
            pos short small time,
      )

  step_next :
      (f : ℕ) (w w' : World) (b b' : Buffer)
      → round m env w b ≡ next w' b'
      → on_message m env (suc f) w b ≡ on_message m env f w' b'
  unfolding on_message
  step_next f w w' b b' e = rw (e, on_message)

  step_fault :
      (f : ℕ) (w : World) (b : Buffer)
      → round m env w b ≡ fault
      → on_message m env (suc f) w b ≡ some fault
  unfolding on_message
  step_fault f w b e = rw (e, on_message)

  -- The item that a `set` stores, and the session behind it.
  abbrev pub set_item : List ℕ → List ℕ → List ℕ → List ℕ → Item
  set_item k fs es v = plain_item env.hash_range k (number fs) (number es) v

  abbrev pub after_set : World → List ℕ → List ℕ → List ℕ → List ℕ → List ℕ → World
  after_set w k fs es ns v =
      record (awaiting (with_update w k (number fs) (number es) (number ns))) {
        store = store_item w.store (set_item k fs es v);
        log = w.log ++ send (codes "STORED\r\n") ∷ [];
      }

  set_line-Free : (k fs es ns v : List ℕ) → SetRequest k fs es ns v → Free 13 (set_line k fs es ns)
  unfolding set_line
  set_line-Free k fs es ns v s = Free-append 13 (codes "set ") _ (omega arith) (
      Free-append 13 k _ s.one_line (
        omega arith,
        Free-append 13 fs _ (IsNumber-Free fs s.flag) (
          omega arith,
          Free-append 13 es _ (IsNumber-Free es s.time) (omega arith, IsNumber-Free ns s.len),
        ),
      ))

  -- Two rounds of `onMessage` over a whole `set` request at the front of the buffer: the item with
  -- the printed key, flag, time and value goes to the store, "STORED" is sent, exactly the request
  -- is taken from the buffer, and the session awaits the next command.
  pub set_stores :
      (f : ℕ) (w : World) (b : Buffer) (k fs es ns v rest : List ℕ)
      → peek b ≡ set_line k fs es ns ++ 13 ∷ 10 ∷ (v ++ 13 ∷ 10 ∷ rest)
      → SetRequest k fs es ns v
      → (b' : Buffer) × (on_message m env (suc (suc f)) (awaiting w) b
          ≡ on_message m env f (after_set w k fs es ns v) b')
        × (peek b' ≡ rest)
  set_stores f w b k fs es ns v rest e s =
      let l = set_line k fs es ns in
      let w1 = with_update (awaiting w) k (number fs) (number es) (number ns) in
      let w2 = after_command true w1 in
      let b1 = retrieve b (length l + 2) in
      let e1 : peek b1 ≡ v ++ 13 ∷ 10 ∷ rest = line_rest m b l (v ++ 13 ∷ 10 ∷ rest) e in
      let r1 = line_round w w1 b l (v ++ 13 ∷ 10 ∷ rest) true e (set_line-Free k fs es ns v s) (
        do_request_command-set_line env (awaiting w) k fs es ns s.word s.short s.flag s.time s.len
          s.flag_fits s.time_fits s.len_fits) in
      let r2 =
        value_step w2 b1 v rest e1 s.announced refl (IsWord-length k s.word) (omega arith)
          (omega arith) s.time_fits in
      (
        retrieve b1 (length v + 2),
        step_next (suc f) (awaiting w) w2 b b1 r1 ∙ step_next f w2 _ b1 _ r2,
        line_rest m b1 v rest e1,
      )

  get_line-Free : (k : List ℕ) → Free 13 k → Free 13 (get_line k)
  unfolding get_line
  get_line-Free k h = Free-append 13 (codes "get ") k (omega arith) h

  -- The text of a reply: the key, the flag, and the value with its length.
  abbrev pub value_text : List ℕ → ℕ → List ℕ → List ℕ
  value_text k flag v =
      codes "VALUE "
      ++ (k
          ++ (b' '
              ∷ (env.show_int flag
                  ++ (b' '
                      ∷ (env.show_int (length v)
                          ++ (codes "\r\n" ++ (v ++ codes "\r\nEND\r\n")))))))

  reply-plain :
      (k v : List ℕ) (flag exptime : ℕ)
      → value_reply env k (plain_item env.hash_range k flag exptime v) ≡ value_text k flag v
  unfolding value_reply
  reply-plain k v flag exptime = rw (value-plain env.hash_range k v flag exptime)

  -- One round of `onMessage` over a `get` request whose key the store has, as the item that `set`
  -- makes of a flag, a time and a value, and whose bytes the destroyed string's memory still holds
  -- when it is read: "VALUE", the key, the flag, the number of bytes of the value, the value and
  -- "END" are sent, exactly the line is taken from the buffer, and the store stays as it is.
  pub get_replies :
      (f : ℕ) (w : World) (b : Buffer) (k v rest : List ℕ) (flag exptime : ℕ)
      → peek b ≡ get_line k ++ 13 ∷ 10 ∷ rest
      → IsWord k
      → Free 13 k
      → length k < 2 ^ 31
      → Survives env w.log k
      → get_item w.store (key_item env k) ≡ some (plain_item env.hash_range k flag exptime v)
      → (b' : Buffer) × (w' : World) × (on_message m env (suc f) (awaiting w) b
          ≡ on_message m env f (awaiting w') b')
        × (peek b' ≡ rest)
        × (w'.store ≡ w.store)
        × (w'.log ≡ w.log ++ send (value_text k flag v) ∷ [])
  unfolding Survives
  get_replies f w b k v rest flag exptime e word line short (same, shown) found =
      let i = plain_item env.hash_range k flag exptime v in
      let w1 = replied env (awaiting w) k i in
      let there : looked_up env w k ≡ some i =
        ap (λ t. get_item w.store (key_item env t)) same ∙ found in
      let r =
        line_round w w1 b (get_line k) rest true e (get_line-Free k line)
          (do_request_command-get_line env (awaiting w) k word short ∙ rw there) in
      (
        retrieve b (length (get_line k) + 2),
        w1,
        step_next f (awaiting w) _ b _ r,
        line_rest m b (get_line k) rest e,
        refl,
        ap (λ t. w.log ++ send (value_reply env t i) ∷ []) shown
            ∙ ap (λ t. w.log ++ send t ∷ []) (reply-plain k v flag exptime),
      )

  -- A `get` request brings the server down if the store does not have the bytes that `doGet` reads
  -- for the key, whatever they are: it goes through the null pointer that `getItem` returns.
  pub get_missing_faults :
      (f : ℕ) (w : World) (b : Buffer) (k rest : List ℕ)
      → peek b ≡ get_line k ++ 13 ∷ 10 ∷ rest
      → IsWord k
      → Free 13 k
      → length k < 2 ^ 31
      → looked_up env w k ≡ none
      → on_message m env (suc f) (awaiting w) b ≡ some fault
  unfolding command_round
  get_missing_faults f w b k rest e word line short missing = step_fault f (awaiting w) b (
      round-command m env (awaiting w) b refl
      ∙ rw (line_found m b (get_line k) rest e (get_line-Free k line), command_round)
          (rw (line_bytes m b (get_line k) rest e)
            (rw (do_request_command-get_line env (awaiting w) k word short) (rw missing))))
