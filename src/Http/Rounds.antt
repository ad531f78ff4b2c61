-- ===== src/Http/Rounds.antt =====
-- The loop of `parse_request`: it ends, and what a round does to the body.
use linux_socket_test.Prelude.{
  ℕ, zero, suc, ◌+◌, ◌≡◌, ◌≢◌, ◌⊎◌, ◌<◌, ◌≤◌, refl, sym, ◌∙◌, List, Option, none, some, arith,
  length, first_crlf-bound, length-drop, Option-cases, inl, inr,
}
use linux_socket_test.Prelude.Int.{ℤ}
use linux_socket_test.Muduo.{BufferOps}
use linux_socket_test.Http.Request.{HttpRequest}
use linux_socket_test.Http.Context.{
  HttpContext, ParseState, expect_request_line, expect_headers, expect_body, got_all, Round, next,
  done, aborted, request_line, header_line, body_part, finish_body, round, parse_request,
}

module _ (m : BufferOps) where
  open m use {Buffer, peek, find_crlf, retrieve, find_crlf_lem, peek-retrieve}

  -- A line that is found is removed with its "\r\n".
  shrinks :
      (b : Buffer) (i : ℕ)
      → find_crlf b 0 ≡ some i
      → length (peek (retrieve b (i + 2))) + 2 ≤ length (peek b)
  shrinks b i h =
      let found = sym (find_crlf_lem b 0 (omega arith)) ∙ h in
      let bound : i + 2 ≤ length (peek b) = ground (arith, found, first_crlf-bound (peek b) i) in
      let size = length-drop (i + 2) (peek b) in rw (peek-retrieve b (i + 2) bound) (omega arith)

  request_line-next :
      (c c' : HttpContext) (b b' : Buffer)
      → request_line m c b ≡ next c' b'
      → length (peek b') < length (peek b)
  unfolding request_line
  request_line-next c c' b b' h = elim (Option-cases (find_crlf b 0)) [
    | inl e ↦ ground (arith, e)
    | inr (i, e) ↦ ground (arith, e, shrinks b i e)
  ]

  header_line-next :
      (c c' : HttpContext) (b b' : Buffer)
      → header_line m c b ≡ next c' b'
      → length (peek b') < length (peek b)
  unfolding header_line
  header_line-next c c' b b' h = elim (Option-cases (find_crlf b 0)) [
    | inl e ↦ ground (arith, e)
    | inr (i, e) ↦ ground (arith, e, shrinks b i e)
  ]

  module _ (lexical_cast : List ℕ → Option ℤ) where
    body_part-next :
        (c c' : HttpContext) (b b' : Buffer) → body_part m lexical_cast c b ≢ next c' b'
    unfolding body_part finish_body
    body_part-next c c' b b' h = ground (arith, h)

    round-next :
        (s : ParseState) (r : HttpRequest) (c' : HttpContext) (b b' : Buffer)
        → round m lexical_cast (record { state = s; request = r }) b ≡ next c' b'
        → length (peek b') < length (peek b)
    unfolding round
    round-next expect_request_line r c' b b' h = request_line-next _ c' b b' h
    round-next expect_headers r c' b b' h = header_line-next _ c' b b' h
    round-next expect_body r c' b b' h = absurd (body_part-next _ c' b b' h)
    round-next got_all r c' b b' h = cc

    -- What the loop makes of the result of a round.
    abbrev ended : (HttpContext → Buffer → Option (Round m)) → Round m → Option (Round m)
    ended go (next c' b') = go c' b'
    ended go (done r c' b') = some (done r c' b')
    ended go aborted = some aborted

    Round-cases :
        (o : Round m)
        → ((go : HttpContext → Buffer → Option (Round m)) → ended go o ≢ none)
          ⊎ ((c : HttpContext) × (b : Buffer) × (o ≡ next c b))
    Round-cases (next c b) = inr (c, b, refl)
    Round-cases (done r c b) = inl (λ go h. cc)
    Round-cases aborted = inl (λ go h. cc)

    -- The loop of `parse_request` ends on every input: more rounds than the buffer has bytes are
    -- never needed, since each round that goes on takes a line from the buffer.
    pub parse_request_halts :
        (fuel : ℕ) (c : HttpContext) (b : Buffer)
        → length (peek b) < fuel
        → parse_request m lexical_cast fuel c b ≢ none
    unfolding parse_request
    parse_request_halts zero c b h = absurd (omega arith)
    parse_request_halts (suc fuel) c b h = elim (Round-cases (round m lexical_cast c b)) [
      | inl stops ↦ stops (parse_request m lexical_cast fuel)
      | inr (c', b', e) ↦
          rw (e, parse_request)
            (parse_request_halts fuel c' b' (omega (arith, round-next c.state c.request c' b b' e)))
    ]
