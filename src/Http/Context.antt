-- ===== src/Http/Context.antt =====
-- http/http_context.h and http_context.cpp: the incremental request parser.
use linux_socket_test.Prelude.{
  ℕ, zero, suc, ◌+◌, List, [], ◌∷◌, Option, none, some, Bool, true, false, ◌==◌, ltb, ◌&&◌,
  if◌then◌else◌, eq_bytes, codes, length, take, get_or, break_at,
}
use linux_socket_test.Prelude.Int.{ℤ}
use linux_socket_test.Muduo.{BufferOps}
use linux_socket_test.Http.Request
use linux_socket_test.Http.Request.{
  HttpRequest, http10, http11, set_method, add_header, get_header, append_body, get_remain_body_len,
}

pub data ParseState : Type 0 where
  expect_request_line expect_headers expect_body got_all : ParseState

pub record HttpContext : Type 0 where
  pub state : ParseState
  pub request : HttpRequest

unfoldable pub new : HttpContext
unfolding Request.new
new = record { state = expect_request_line; request = Request.new }

-- `reset` assigns a fresh state and a fresh request.
unfoldable pub reset : HttpContext → HttpContext
unfolding Request.new
reset c = record { state = expect_request_line; request = Request.new }

-- The version, the last part of the request line.
unfoldable pub parse_version : HttpRequest → List ℕ → Bool × HttpRequest
parse_version r v =
    if length v == 8 && eq_bytes (take 7 v) (codes "HTTP/1.")
    then (if get_or v 7 0 == b'1'
        then (true, record r { version = http11 })
        else if get_or v 7 0 == b'0'
        then (true, record r { version = http10 })
        else (false, r))
    else (false, r)

-- The path and the query: a question mark stays at the head of the query.
unfoldable pub set_target : HttpRequest → List ℕ → HttpRequest
set_target r target = elim (break_at b'?' target) [
  | none ↦ record r { path = target }
  | some (p, q) ↦ record r { path = p; query = b'?' ∷ q }
]

unfoldable pub parse_target : HttpRequest → List ℕ → Bool × HttpRequest
parse_target r rest = elim (break_at b' ' rest) [
  | none ↦ (false, r)
  | some (target, v) ↦ parse_version (set_target r target) v
]

-- `parse_first_line`, given the bytes of the line; the request keeps what was set before a failure.
unfoldable pub parse_first_line : HttpRequest → List ℕ → Bool × HttpRequest
parse_first_line r line = elim (break_at b' ' line) [
  | none ↦ (false, r)
  | some (m, rest) ↦
      let (good, r') = set_method r m in
      let parsed = parse_target r' rest in if good then parsed else (false, r')
]

module _ (m : BufferOps) where
  open m use {Buffer, peek, find_crlf, retrieve}

  -- What one round of the loop of `parse_request` does: go on, leave the loop with the result, or
  -- fail an assertion.
  pub data Round : Type 0 where
    next : HttpContext → Buffer → Round
    done : Bool → HttpContext → Buffer → Round
    aborted : Round

  unfoldable pub request_line : HttpContext → Buffer → Round
  request_line c b = elim (find_crlf b 0) [
    | none ↦ done true c b
    | some crlf ↦
        let (good, r) = parse_first_line c.request (take crlf (peek b)) in
        if good
        then next (record { state = expect_headers; request = r }) (retrieve b (crlf + 2))
        else done false (record c { request = r }) b
  ]

  unfoldable pub header_line : HttpContext → Buffer → Round
  header_line c b = elim (find_crlf b 0) [
    | none ↦ done true c b
    | some crlf ↦
        let b' = retrieve b (crlf + 2) in
        elim (break_at b':' (take crlf (peek b))) [
          | some (field, after) ↦ next (record c { request = add_header c.request field after }) b'
          | none ↦
              if eq_bytes (get_header c.request (codes "Content-Length")) []
              then done true (record c { state = got_all }) b'
              else next (record c { state = expect_body }) b'
        ]
  ]

  module _ (lexical_cast : List ℕ → Option ℤ) where
    -- The state after the body bytes are taken; `full` is whether the buffer held more than was
    -- missing, and then the code asserts that nothing is missing any more.
    unfoldable pub finish_body : Bool → HttpContext → Buffer → Round
    finish_body full c b = elim (get_remain_body_len lexical_cast c.request) [
      | none ↦ aborted
      | some zero ↦ done true (record c { state = got_all }) b
      | some (suc n) ↦ if full then aborted else done true c b
    ]

    unfoldable pub body_part : HttpContext → Buffer → Round
    body_part c b = elim (get_remain_body_len lexical_cast c.request) [
      | none ↦ aborted
      | some remain ↦
          let readable = length (peek b) in
          let n = if ltb remain readable then remain else readable in
          finish_body (ltb remain readable)
            (record c { request = append_body c.request (take n (peek b)) }) (retrieve b n)
    ]

    unfoldable pub round : HttpContext → Buffer → Round
    round c b = elim c.state [
      | expect_request_line ↦ request_line c b
      | expect_headers ↦ header_line c b
      | expect_body ↦ body_part c b
      | got_all ↦ done true c b
    ]

    -- `parse_request`; `none` at the end of the fuel.
    unfoldable pub parse_request : ℕ → HttpContext → Buffer → Option Round
    parse_request zero c b = none
    parse_request (suc fuel) c b = elim (round c b) [
      | next c' b' ↦ parse_request fuel c' b'
      | done r c' b' ↦ some (done r c' b')
      | aborted ↦ some aborted
    ]
