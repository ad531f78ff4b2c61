-- ===== src/Http/Message.antt =====
-- `parse_request` on whole messages, and its termination.
use linux_socket_test.Prelude.{
  ℕ, suc, ◌+◌, ◌-◌, ◌≡◌, ◌≤◌, ap, ◌∙◌, List, [], ◌∷◌, ◌++◌, Option, some, true, arith, codes, Free,
  break_at-append, break_at-none, eq_bytes, length, if◌then◌else◌, Free-append,
}
use linux_socket_test.Prelude.Int.{ℤ}
use linux_socket_test.Muduo.{BufferOps, line_found, line_bytes, line_rest}
use linux_socket_test.Http.Request
use linux_socket_test.Http.Context
use linux_socket_test.Http.Request.{
  HttpRequest, add_header, get_header, append_body, get_remain_body_len, Version, Method, unknown,
  is_valid,
}
use linux_socket_test.Http.Context.{
  HttpContext, expect_request_line, expect_headers, expect_body, got_all, Round, next, done,
  aborted, parse_first_line, request_line, header_line, body_part, finish_body, round,
  parse_request,
}

-- A header as a client prints it: the name, a colon, the text behind the colon.
abbrev pub Header : Type 0
Header = List ℕ × List ℕ

abbrev pub IsHeader : Header → Type 0
IsHeader h = Free 58 h.0 × Free 13 h.0 × Free 13 h.1

abbrev pub AreHeaders : List Header → Type 0
AreHeaders [] = Unit
AreHeaders (h ∷ hs) = IsHeader h × AreHeaders hs

abbrev pub header_str : Header → List ℕ
header_str h = h.0 ++ 58 ∷ h.1

-- The header lines, the empty line, and what follows.
unfoldable pub headers_str : List Header → List ℕ → List ℕ
headers_str [] rest = 13 ∷ 10 ∷ rest
headers_str (h ∷ hs) rest = header_str h ++ 13 ∷ 10 ∷ headers_str hs rest

unfoldable pub add_headers : HttpRequest → List Header → HttpRequest
add_headers r [] = r
add_headers r ((f, v) ∷ hs) = add_headers (add_header r f v) hs

module _ (m : BufferOps) where
  open m use {Buffer, peek, find_crlf, retrieve}

  header_line-next :
      (c : HttpContext) (b : Buffer) (h : Header) (rest : List ℕ)
      → peek b ≡ header_str h ++ 13 ∷ 10 ∷ rest
      → IsHeader h
      → header_line m c b
        ≡ next
            (record c { request = add_header c.request h.0 h.1 })
            (retrieve b (length (header_str h) + 2))
  unfolding header_line
  header_line-next c b (f, v) rest e (colon, cr, cr') =
      rw
        (
          line_found m b (f ++ 58 ∷ v) rest e (Free-append 13 f (58 ∷ v) cr (omega arith, cr')),
          header_line,
        )
        (rw (line_bytes m b (f ++ 58 ∷ v) rest e) (rw (break_at-append 58 f v colon)))

  -- Any line without a colon ends the headers, whether it is empty or not.
  pub header_line-no_colon :
      (c : HttpContext) (b : Buffer) (l rest : List ℕ)
      → peek b ≡ l ++ 13 ∷ 10 ∷ rest
      → Free 13 l
      → Free 58 l
      → header_line m c b ≡ (
          if eq_bytes (get_header c.request (codes "Content-Length")) []
          then done true (record c { state = got_all }) (retrieve b (length l + 2))
          else next (record c { state = expect_body }) (retrieve b (length l + 2)))
  unfolding header_line
  header_line-no_colon c b l rest e cr colon =
      rw (line_found m b l rest e cr, header_line)
        (rw (line_bytes m b l rest e) (rw (break_at-none 58 l colon)))

  module _ (lexical_cast : List ℕ → Option ℤ) where
    abbrev parse : ℕ → HttpContext → Buffer → Option (Round m)
    parse = parse_request m lexical_cast

    headers_skip :
        (hs : List Header) (f : ℕ) (r : HttpRequest) (b : Buffer) (rest : List ℕ)
        → peek b ≡ headers_str hs rest
        → AreHeaders hs
        → (b' : Buffer) × (parse (length hs + f) (record { state = expect_headers; request = r }) b
            ≡ parse f (record { state = expect_headers; request = add_headers r hs }) b')
          × (peek b' ≡ 13 ∷ 10 ∷ rest)
    unfolding headers_str add_headers parse_request round
    headers_skip [] f r b rest e hs =
        let z : 0 + f ≡ f = omega arith in
        (b, ap (λ k. parse k (record { state = expect_headers; request = r }) b) z, e)
    headers_skip (h ∷ hs) f r b rest e (ok, oks) =
        let c : HttpContext = record { state = expect_headers; request = r } in
        let z : suc (length hs) + f ≡ suc (length hs + f) = omega arith in
        let step = header_line-next c b h (headers_str hs rest) e ok in
        let b1 = retrieve b (length (header_str h) + 2) in
        let (b', same, left) =
          headers_skip hs f (add_header r h.0 h.1) b1 rest
            (line_rest m b (header_str h) (headers_str hs rest) e) oks in
        (b', rw z (rw (step, parse_request) same), left)

    -- The request line, where `parse_first_line` accepts it.
    first_step :
        (f : ℕ) (r r' : HttpRequest) (b : Buffer) (l rest : List ℕ)
        → peek b ≡ l ++ 13 ∷ 10 ∷ rest
        → Free 13 l
        → parse_first_line r l ≡ (true, r')
        → parse (suc f) (record { state = expect_request_line; request = r }) b
          ≡ parse f (record { state = expect_headers; request = r' }) (retrieve b (length l + 2))
    unfolding parse_request round request_line
    first_step f r r' b l rest e free good =
        rw (line_found m b l rest e free, request_line, parse_request)
          (rw (line_bytes m b l rest e) (rw good))

    -- The empty line, where no body is announced.
    last_step :
        (f : ℕ) (r : HttpRequest) (b : Buffer) (rest : List ℕ)
        → peek b ≡ 13 ∷ 10 ∷ rest
        → get_header r (codes "Content-Length") ≡ []
        → parse (suc f) (record { state = expect_headers; request = r }) b
          ≡ some (done true (record { state = got_all; request = r }) (retrieve b (0 + 2)))
    unfolding parse_request round eq_bytes
    last_step f r b rest e none_left =
        rw
          (
            header_line-no_colon (record { state = expect_headers; request = r }) b [] rest e tt tt,
            parse_request,
          )
          (rw none_left)

    -- A fresh or reset parser that finds in the buffer a request line that `parse_first_line` accepts,
    -- header lines, the empty line and any further bytes, where no header announces a body, returns
    -- true in state kGotAll with the fields of the request line and all the headers, added in order,
    -- and takes exactly the message from the buffer. One round for each line is fuel enough.
    pub parse_request-no_body :
        (fuel : ℕ) (b : Buffer) (l : List ℕ) (r : HttpRequest) (hs : List Header) (rest : List ℕ)
        → peek b ≡ l ++ 13 ∷ 10 ∷ headers_str hs rest
        → Free 13 l
        → parse_first_line Request.new l ≡ (true, r)
        → AreHeaders hs
        → get_header (add_headers r hs) (codes "Content-Length") ≡ []
        → length hs + 2 ≤ fuel
        → (b' : Buffer) × (parse_request m lexical_cast fuel Context.new b
            ≡ some (done true (record { state = got_all; request = add_headers r hs }) b'))
          × (peek b' ≡ rest)
    unfolding Context.new
    parse_request-no_body fuel b l r hs rest e free good hh nobody enough =
        let f = fuel - length hs - 2 in
        let z : fuel ≡ suc (length hs + suc f) = omega arith in
        let b1 = retrieve b (length l + 2) in
        let (b2, same, left) =
          headers_skip hs (suc f) r b1 rest (line_rest m b l (headers_str hs rest) e) hh in
        let first =
          first_step (length hs + suc f) Request.new r b l (headers_str hs rest) e free good in
        let last = last_step f (add_headers r hs) b2 rest left nobody in
        (
          retrieve b2 (0 + 2),
          ap (λ k. parse k Context.new b) z ∙ first ∙ same ∙ last,
          line_rest m b2 [] rest left,
        )
