-- ===== src/Memcached/SplitLine.antt =====
-- A command line whose "\r\n" arrives in two parts.
use linux_socket_test.Prelude.{
  ℕ, suc, ◌+◌, ◌≡◌, refl, ap, sym, ◌∙◌, List, [], ◌∷◌, ◌++◌, none, some, arith, length, drop,
  first_crlf, first_crlf-cut, length-append, Free, drop-length-append, append_assoc,
}
use linux_socket_test.Muduo.{BufferOps, no_line}
use linux_socket_test.Memcached.Session.{World, read_command_line, Env}
use linux_socket_test.Memcached.Loop.{done, command_round, on_message, search_from}
use linux_socket_test.Memcached.Ends.{round-command}

-- The session has searched up to the address `p` for the end of the line.
abbrev pub searched : ℕ → World → World
searched p w = record w {
  session = record (w.session) { receive_state = read_command_line; search_pos = some p };
}

-- The session awaits a command line and has searched nothing yet.
abbrev pub awaiting : World → World
awaiting w = record w {
  session = record (w.session) { receive_state = read_command_line; search_pos = none };
}

lone_line_feed : first_crlf (10 ∷ []) ≡ none
unfolding first_crlf
lone_line_feed = refl

module _ (m : BufferOps) (env : Env) where
  open m use {Buffer, peek, address, find_crlf, append, find_crlf_lem, peek-append}

  -- Where no line end is found the loop stops, and remembers how far it has searched.
  search_fails :
      (f : ℕ) (w : World) (b : Buffer) (s : ℕ)
      → w.session.receive_state ≡ read_command_line
      → search_from w.session.search_pos (address b) (length (peek b)) ≡ some s
      → find_crlf b s ≡ none
      → on_message m env (suc f) w b ≡ some (done (searched (address b + length (peek b)) w) b)
  unfolding on_message command_round
  search_fails f w b s e from h = ground (arith, round-command m env w b e, from, h, e)

  -- If a read ends between the "\r" and the "\n" of a command line, and the "\n" arrives where the
  -- buffer has room for it, so that its bytes are not moved, the session misses the line:
  -- it has remembered to search behind the "\r", so when the "\n" arrives and the whole line with
  -- its "\r\n" is in the buffer, `onMessage` again finds no line, does no command and takes nothing
  -- from the buffer.
  pub split_line_missed :
      (f : ℕ) (w : World) (b : Buffer) (l : List ℕ)
      → peek b ≡ l ++ 13 ∷ []
      → Free 13 l
      → address (append b (10 ∷ [])) ≡ address b
      → let p = address b + (length l + 1) in
        let b' = append b (10 ∷ []) in
        (on_message m env (suc f) (awaiting w) b ≡ some (done (searched p w) b))
        × (on_message m env (suc f) (searched p w) b' ≡ some (done (searched (p + 1) w) b'))
        × (peek b' ≡ l ++ 13 ∷ 10 ∷ [])
  split_line_missed f w b l e free still =
      let p = address b + (length l + 1) in
      let b' = append b (10 ∷ []) in
      let size : length (peek b) ≡ length l + 1 =
        omega (arith, ap length e, length-append l (13 ∷ [])) in
      let parts = peek-append b (10 ∷ []) in
      let size' : length (peek b') ≡ length l + 2 =
        omega (arith, ap length parts, length-append (peek b) (10 ∷ []), size) in
      let before : find_crlf b 0 ≡ none = no_line m b (ap first_crlf e ∙ first_crlf-cut l free) in
      let tail : drop (length l + 1) (peek b') ≡ 10 ∷ [] =
        ap (λ k. drop k (peek b')) (sym size)
        ∙ ap (drop (length (peek b))) parts
        ∙ drop-length-append (peek b) (10 ∷ []) in
      let after : find_crlf b' (length l + 1) ≡ none =
        find_crlf_lem b' (length l + 1) (omega (arith, size')) ∙ rw tail (rw lone_line_feed) in
      (
        search_fails f (awaiting w) b 0 refl refl before
            ∙ ap (λ k. some (done (searched (address b + k) w) b)) size,
        search_fails f (searched p w) b' (length l + 1) refl (ground (arith, still, size')) after
            ∙ ap (λ k. some (done (searched k w) b')) (omega (arith, still, size')),
        parts ∙ ap (λ x. x ++ 10 ∷ []) e ∙ append_assoc l (13 ∷ []) (10 ∷ []),
      )
