-- ===== src/Http/Body.antt =====
-- The body: what a round in state kExpectBody takes from the buffer.
use linux_socket_test.Prelude.{
  ℕ, suc, ◌+◌, ◌-◌, ◌≡◌, ◌≤◌, refl, ap, ◌∙◌, List, ◌++◌, Option, some, true, arith, length, take,
  drop, ◌==◌, if◌then◌else◌, length-take, length-append, min,
}
use native.Mathlib.Decide.{dec_lt}
use linux_socket_test.Prelude.Int.{ℤ, pos}
use linux_socket_test.Muduo.{BufferOps}
use linux_socket_test.Http.Request.{
  HttpRequest, append_body, get_remain_body_len, get_expect_body_len, get_header,
}
use linux_socket_test.Http.Context.{
  expect_body, got_all, done, body_part, finish_body, parse_request, round,
}

module _ (lexical_cast : List ℕ → Option ℤ) (n : ℕ) where
  remain-some :
      (r : HttpRequest)
      → get_expect_body_len lexical_cast r ≡ pos n
      → length r.body ≤ n
      → get_remain_body_len lexical_cast r ≡ some (n - length r.body)
  unfolding get_remain_body_len
  remain-some r announced h = ground (arith, announced)

  expect-append_body :
      (r : HttpRequest) (bs : List ℕ)
      → get_expect_body_len lexical_cast r ≡ pos n
      → get_expect_body_len lexical_cast (append_body r bs) ≡ pos n
  unfolding get_expect_body_len append_body get_header
  expect-append_body r bs announced = announced

  body-append_body : (r : HttpRequest) (bs : List ℕ) → (append_body r bs).body ≡ r.body ++ bs
  unfolding append_body
  body-append_body r bs = refl

  remain-append_body :
      (r : HttpRequest) (bs : List ℕ) (k : ℕ)
      → get_expect_body_len lexical_cast r ≡ pos n
      → length r.body + length bs ≤ n
      → n - length r.body - length bs ≡ k
      → (get_remain_body_len lexical_cast (append_body r bs) ≡ some k)
        × (length (append_body r bs).body ≡ length r.body + length bs)
  remain-append_body r bs k announced h e =
      let size = ap length (body-append_body r bs) ∙ length-append r.body bs in
      let left : n - length (append_body r bs).body ≡ k = omega (arith, size) in
      (
        remain-some (append_body r bs) (expect-append_body r bs announced) (omega (arith, size))
            ∙ ap some left,
        size,
      )

module _ (m : BufferOps) (lexical_cast : List ℕ → Option ℤ) where
  open m use {Buffer, peek, retrieve, peek-retrieve}

  -- In state kExpectBody, with `n` bytes announced and no more than `n` already there, one call
  -- of `parse_request` passes the assertions and returns true. It moves as many bytes as are both
  -- missing and readable from the buffer to the end of the body, and the state becomes kGotAll
  -- exactly when the body then has `n` bytes.
  pub parse_request-body :
      (fuel n : ℕ) (r : HttpRequest) (b : Buffer)
      → get_expect_body_len lexical_cast r ≡ pos n
      → length r.body ≤ n
      → let k = min (n - length r.body) (length (peek b)) in
        let r' = append_body r (take k (peek b)) in
        (b' : Buffer) × (parse_request m lexical_cast
            (suc fuel)
            (record { state = expect_body; request = r })
            b
          ≡ some (
              done true
                (record {
                  state = if length r'.body == n then got_all else expect_body;
                  request = r';
                })
                b'))
        × (peek b' ≡ drop k (peek b))
  unfolding parse_request round body_part finish_body
  parse_request-body fuel n r b announced h = elim (dec_lt missing (length (peek b))) [
    | yes p ↦
        let k : min missing (length (peek b)) ≡ missing = omega arith in
        let size : length (take missing (peek b)) ≡ missing =
          omega (arith, length-take missing (peek b)) in
        let (zero_left, whole) =
          remain-append_body lexical_cast n r (take missing (peek b)) 0 announced (omega arith)
            (omega arith) in
        (
          retrieve b missing,
          rw k (ground (arith, start, zero_left, whole, size)),
          rw k (peek-retrieve b missing (omega arith)),
        )
    | no p ↦
        let k : min missing (length (peek b)) ≡ length (peek b) = omega arith in
        let size : length (take (length (peek b)) (peek b)) ≡ length (peek b) =
          omega (arith, length-take (length (peek b)) (peek b)) in
        let (left, whole) =
          remain-append_body lexical_cast n r (take (length (peek b)) (peek b))
            (missing - length (peek b)) announced (omega arith) (omega arith) in
        (
          retrieve b (length (peek b)),
          rw k (ground (arith, start, left, whole, size)),
          rw k (peek-retrieve b (length (peek b)) (omega arith)),
        )
  ]
    where
      missing : ℕ
      missing = n - length r.body

      start : get_remain_body_len lexical_cast r ≡ some missing
      start = remain-some lexical_cast n r announced h
