-- ===== src/Memcached/Ends.antt =====
-- The loop of `onMessage`: it ends, and it keeps the remembered search position in the buffer.
use linux_socket_test.Prelude.{
  ℕ, zero, suc, ◌+◌, ◌-◌, ◌≡◌, ◌<◌, ◌≤◌, refl, sym, ◌∙◌, Option, none, some, arith, length, drop,
  first_crlf-bound, length-drop, Option-cases, inl, inr,
}
use linux_socket_test.Muduo.{BufferOps}
use linux_socket_test.Memcached.Session.{
  World, read_command_line, read_value, ReceiveState, Env, store_data,
}
use linux_socket_test.Memcached.Loop.{
  Round, next, done, fault, command_round, value_round, round, on_message, search_from,
}

-- Where the remembered search position may point to, for a buffer of `n` bytes from the address `a` on.
abbrev pub IsPlaced : ReceiveState → Option ℕ → ℕ → ℕ → Type 0
IsPlaced s none a n = Unit
IsPlaced read_command_line (some p) a n = (a ≤ p) × (p ≤ a + n)
IsPlaced read_value (some p) a n = ⊥

search_from-le : (q : Option ℕ) (a n s : ℕ) → search_from q a n ≡ some s → s ≤ n
search_from-le none a n s h = ground (arith, h)
search_from-le (some p) a n s h = ground (arith, h)

placed-none : (q : Option ℕ) (a n : ℕ) → IsPlaced read_value q a n → q ≡ none
placed-none none a n h = refl
placed-none (some p) a n h = absurd h

IsPlaced-none : (s : ReceiveState) (q : Option ℕ) (a n : ℕ) → q ≡ none → IsPlaced s q a n
IsPlaced-none s none a n h = tt
IsPlaced-none s (some p) a n h = cc

module _ (m : BufferOps) (env : Env) where
  open m use {Buffer, peek, address, find_crlf, retrieve, find_crlf_lem, peek-retrieve}

  shrinks :
      (b : Buffer) (s i : ℕ)
      → s ≤ length (peek b)
      → find_crlf b s ≡ some i
      → length (peek (retrieve b (i + 2))) + 2 ≤ length (peek b)
  shrinks b s i le h =
      let found = sym (find_crlf_lem b s le) ∙ h in
      let size = length-drop s (peek b) in
      let bound : i + 2 ≤ length (peek b) =
        ground (arith, found, size, first_crlf-bound (drop s (peek b)) (i - s)) in
      let size' = length-drop (i + 2) (peek b) in rw (peek-retrieve b (i + 2) bound) (omega arith)

  command_round-next :
      (w w' : World) (b b' : Buffer)
      → command_round m env w b ≡ next w' b'
      → (length (peek b') < length (peek b)) × (w'.session.search_pos ≡ none)
  unfolding command_round
  command_round-next w w' b b' h =
      let q = w.session.search_pos in
      elim (Option-cases (search_from q (address b) (length (peek b)))) [
        | inl outside ↦ absurd (ground (arith, outside, h))
        | inr (s, from) ↦ elim (Option-cases (find_crlf b s)) [
          | inl e ↦ absurd (ground (arith, from, e, h))
          | inr (i, e) ↦
              let le = search_from-le q (address b) (length (peek b)) s from in
              ground (arith, from, e, h, shrinks b s i le e)
        ]
      ]

  value_round-next :
      (w w' : World) (b b' : Buffer)
      → value_round m env w b ≡ next w' b'
      → (length (peek b') < length (peek b)) × (w'.session.search_pos ≡ w.session.search_pos)
  unfolding value_round store_data
  value_round-next w w' b b' h = ground (
    arith,
    peek-retrieve b (w.session.cur_value_len + 2),
    length-drop (w.session.cur_value_len + 2) (peek b),
  )

  command_round-done :
      (w w' : World) (b b' : Buffer)
      → w.session.receive_state ≡ read_command_line
      → command_round m env w b ≡ done w' b'
      → IsPlaced w'.session.receive_state w'.session.search_pos (address b') (length (peek b'))
  unfolding command_round
  command_round-done w w' b b' e h =
      let q = w.session.search_pos in
      elim (Option-cases (search_from q (address b) (length (peek b)))) [
        | inl outside ↦ absurd (ground (arith, outside, h))
        | inr (s, from) ↦ elim (Option-cases (find_crlf b s)) [
          | inl k ↦
              let state : w'.session.receive_state ≡ read_command_line =
                ground (arith, e, from, k, h) in
              let place : w'.session.search_pos ≡ some (address b' + length (peek b')) =
                ground (arith, from, k, h) in
              rw (state, place) (omega arith, omega arith)
          | inr (i, k) ↦ absurd (ground (arith, from, k, h))
        ]
      ]

  value_round-done :
      (w w' : World) (b b' : Buffer)
      → value_round m env w b ≡ done w' b'
      → w'.session.search_pos ≡ w.session.search_pos
  unfolding value_round
  value_round-done w w' b b' h = ground arith

  pub round-command :
      (w : World) (b : Buffer)
      → w.session.receive_state ≡ read_command_line
      → round m env w b ≡ command_round m env w b
  unfolding round
  round-command w b e = ground (arith, e)

  pub round-value :
      (w : World) (b : Buffer)
      → w.session.receive_state ≡ read_value
      → round m env w b ≡ value_round m env w b
  unfolding round
  round-value w b e = ground (arith, e)

  module _ (w w' : World) (b b' : Buffer) where
    round-next :
        (s : ReceiveState)
        → w.session.receive_state ≡ s
        → IsPlaced s w.session.search_pos (address b) (length (peek b))
        → round m env w b ≡ next w' b'
        → (length (peek b') < length (peek b)) × (w'.session.search_pos ≡ none)
    round-next read_command_line e p h =
        command_round-next w w' b b' (sym (round-command w b e) ∙ h)
    round-next read_value e p h =
        let (less, kept) = value_round-next w w' b b' (sym (round-value w b e) ∙ h) in
        (less, kept ∙ placed-none w.session.search_pos _ _ p)

    round-done :
        (s : ReceiveState)
        → w.session.receive_state ≡ s
        → IsPlaced s w.session.search_pos (address b) (length (peek b))
        → round m env w b ≡ done w' b'
        → IsPlaced w'.session.receive_state w'.session.search_pos (address b') (length (peek b'))
    round-done read_command_line e p h =
        command_round-done w w' b b' e (sym (round-command w b e) ∙ h)
    round-done read_value e p h = IsPlaced-none w'.session.receive_state w'.session.search_pos _ _ (
        value_round-done w w' b b' (sym (round-value w b e) ∙ h)
        ∙ placed-none w.session.search_pos _ _ p)

  abbrev pub Placed : World → Buffer → Type 0
  Placed w b = IsPlaced w.session.receive_state w.session.search_pos (address b) (length (peek b))

  -- How `onMessage` ends well: by leaving its loop, or with a fault.
  abbrev pub Ends : Option (Round m env) → Type 0
  Ends none = ⊥
  Ends (some (next w b)) = ⊥
  Ends (some (done w b)) = Placed w b
  Ends (some fault) = Unit

  on_message_step :
      (fuel : ℕ) (w : World) (b : Buffer) (o : Round m env)
      → round m env w b ≡ o
      → Placed w b
      → length (peek b) < suc fuel
      → ((w' : World) (b' : Buffer)
          → Placed w' b'
          → length (peek b') < fuel
          → Ends (on_message m env fuel w' b'))
      → Ends (on_message m env (suc fuel) w b)
  unfolding on_message
  on_message_step fuel w b (next w' b') e p h ih =
      let (less, clear) = round-next w w' b b' w.session.receive_state refl p e in
      rw (e, on_message) (ih w' b' (IsPlaced-none _ w'.session.search_pos _ _ clear) (omega arith))
  on_message_step fuel w b (done w' b') e p h ih =
      rw (e, on_message) (round-done w w' b b' w.session.receive_state refl p e)
  on_message_step fuel w b fault e p h ih = rw (e, on_message) tt

  -- `onMessage` ends on every input: more rounds than the buffer has bytes are never needed. When
  -- it leaves its loop, the remembered search position lies in the buffer and is remembered only
  -- while a command line is awaited, as it was required to be at the start.
  pub on_message_halts :
      (fuel : ℕ) (w : World) (b : Buffer)
      → Placed w b
      → length (peek b) < fuel
      → Ends (on_message m env fuel w b)
  on_message_halts zero w b p h = absurd (omega arith)
  on_message_halts (suc fuel) w b p h =
      on_message_step fuel w b (round m env w b) refl p h (on_message_halts fuel)
