-- ===== src/Procmon/Replies.antt =====
-- procmon/procmon.cpp: what a request is answered with.
use linux_socket_test.Prelude.{
  ℕ, suc, ◌+◌, ◌≤◌, ◌≡◌, refl, List, [], ◌∷◌, ◌++◌, Option, none, some, Bool, true, false, codes,
  eq_bytes, length, Free, ap,
}
use linux_socket_test.Prelude.Int.{ℤ}
use linux_socket_test.Prelude.Decimal.{show_nat, show_digits}
use linux_socket_test.Muduo.{BufferOps, line_found, line_bytes}
use linux_socket_test.Http.Request
use linux_socket_test.Http.Request.{HttpRequest, get_header}
use linux_socket_test.Http.Response
use linux_socket_test.Http.Response.{
  HttpResponse, ok, not_found, append_to_buffer, set_status_code, set_status_message,
  set_content_type, add_header, set_body, set_close_connection, code_value, append_connection,
  append_headers,
}
use linux_socket_test.Http.StdMap.{insert, lt_bytes}
use linux_socket_test.Http.Context
use linux_socket_test.Http.Context.{
  HttpContext, got_all, expect_request_line, expect_headers, done, parse_first_line, parse_request,
  reset, round, request_line,
}
use linux_socket_test.Http.Message.{
  Header, AreHeaders, headers_str, add_headers, parse_request-no_body,
}
use linux_socket_test.Procmon.Doubles.{Doubles}
use linux_socket_test.Procmon.Host.{Host, Procmon}
use linux_socket_test.Procmon.Pages.{Shows, Closes, wants_close-Closes, content-Shows}
use linux_socket_test.Procmon.Server.{
  Page, page, unknown, respond, started, content, on_request, reply, on_message,
}

-- The headers that every response has, in the order of the map.
abbrev pub head_lines : List ℕ → List (List ℕ × List ℕ)
head_lines type = (codes "Content-Type", type) ∷ (codes "Server", codes "yqsy-procmon") ∷ []

-- What a page is answered with, and a path that stands for none.
unfoldable pub answer : Page → Bool → HttpResponse
answer (page none body) close = record {
  headers = head_lines (codes "text/plain");
  body = body;
  status_message = codes "OK";
  status_code = ok;
  close_connection = close;
}
answer (page (some type) body) close = record {
  headers = head_lines type;
  body = body;
  status_message = codes "OK";
  status_code = ok;
  close_connection = close;
}
answer unknown close = record {
  headers = head_lines (codes "text/plain");
  body = [];
  status_message = codes "Not Found";
  status_code = not_found;
  close_connection = true;
}

pub respond-answer :
    (c : Page) (close : Bool) → respond (started (Response.new close)) c ≡ answer c close
unfolding respond started answer Response.new set_status_code set_status_message set_content_type
    add_header set_body set_close_connection insert eq_bytes lt_bytes
respond-answer (page none body) close = refl
respond-answer (page (some type) body) close = refl
respond-answer unknown close = refl

pub on_request-answer :
    (d : Doubles) (h : Host d) (p : Procmon) (req : HttpRequest) (close : Bool) (c : Page)
    → content d h p req ≡ some c
    → on_request d h p req (Response.new close) ≡ some (answer c close)
unfolding on_request
on_request-answer d h p req close c e = rw e (ap some (respond-answer c close))

abbrev pub not_found_str : List ℕ
not_found_str =
    codes "HTTP/1.1 404 Not Found\r\nConnection: close\r\n"
    ++ codes "Content-Type: text/plain\r\nServer: yqsy-procmon\r\n\r\n"

module _ (d : Doubles) (h : Host d) (m : BufferOps) (empty : m.Buffer)
    (lexical_cast : List ℕ → Option ℤ) where
  open m use {Buffer, peek, append, peek-append}

  abbrev pub response_bytes : HttpResponse → List ℕ
  response_bytes r = peek (append_to_buffer m r empty)

  -- A connection that waits for a request, and finds in its buffer a whole request without a body and
  -- any further bytes, sends the response with what the table of paths shows at the path, is shut down
  -- if the request asks for it (by "Connection: close", or by HTTP 1.0 without "Connection: Keep-Alive")
  -- or if the path is not known, and waits for the next request with just the further bytes; where the
  -- page of the path can be built at all.
  pub on_message_answers :
      (fuel : ℕ) (p : Procmon) (b : Buffer) (l : List ℕ) (r : HttpRequest) (hs : List Header)
      (rest : List ℕ) (c : Page) (close : Bool)
      → peek b ≡ l ++ 13 ∷ 10 ∷ headers_str hs rest
      → Free 13 l
      → parse_first_line Request.new l ≡ (true, r)
      → AreHeaders hs
      → get_header (add_headers r hs) (codes "Content-Length") ≡ []
      → length hs + 2 ≤ fuel
      → Shows d h p (add_headers r hs).query (add_headers r hs).path c
      → Closes (add_headers r hs) close
      → let response = answer c close in
        (b' : Buffer) × (on_message d h m empty lexical_cast fuel p Context.new b
          ≡ some (record {
            context = Context.new;
            buffer = b';
            sent = response_bytes response;
            shut = response.close_connection;
          }))
        × (peek b' ≡ rest)
  unfolding on_message reply reset Context.new
  on_message_answers fuel p b l r hs rest c close e free good headers nobody enough shows closes =
      let (b', parsed, left) =
        parse_request-no_body m lexical_cast fuel b l r hs rest e free good headers nobody enough in
      let req = add_headers r hs in
      (
        b',
        rw (parsed, on_message)
            (rw (wants_close-Closes req close closes) (
              rw
                (on_request-answer d h p req close c
                  (content-Shows d h p req req.path c refl shows))
                refl)),
        left,
      )

  -- A path that is not known.
  pub response_bytes-not_found :
      (close : Bool) → peek empty ≡ [] → response_bytes (answer unknown close) ≡ not_found_str
  unfolding append_to_buffer append_connection append_headers answer code_value show_nat show_digits
  response_bytes-not_found close nothing = simp (peek-append, nothing)

  -- A request line that cannot be read is answered with 400, and the connection is shut down; the line
  -- stays in the buffer.
  pub on_message_refuses :
      (fuel : ℕ) (p : Procmon) (b : Buffer) (l rest : List ℕ) (r : HttpRequest)
      → peek b ≡ l ++ 13 ∷ 10 ∷ rest
      → Free 13 l
      → parse_first_line Request.new l ≡ (false, r)
      → on_message d h m empty lexical_cast (suc fuel) p Context.new b
        ≡ some (record {
          context = record { state = expect_request_line; request = r };
          buffer = b;
          sent = codes "HTTP/1.1 400 Bad Request\r\n\r\n";
          shut = true;
        })
  unfolding on_message reply Context.new parse_request round request_line
  on_message_refuses fuel p b l rest r e free bad =
      rw (line_found m b l rest e free, request_line, parse_request, on_message)
        (rw (line_bytes m b l rest e) (rw bad))
