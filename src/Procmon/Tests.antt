-- ===== src/Procmon/Tests.antt =====
-- Requests to the process monitor, and its theorem about them.
use linux_socket_test.Prelude.{
  ℕ, ◌-◌, ◌≡◌, refl, List, [], ◌∷◌, ◌++◌, Option, none, some, true, false, arith, codes, eq_bytes,
  break_at,
}
use linux_socket_test.Prelude.Int.{ℤ, pos}
use linux_socket_test.Muduo.{list_buffer}
use linux_socket_test.Http.StdMap.{insert, lookup}
use linux_socket_test.Http.Request
use linux_socket_test.Http.Request.{
  HttpRequest, get, http10, method_of, set_method, add_header, get_header,
}
use linux_socket_test.Http.Context
use linux_socket_test.Http.Context.{
  expect_request_line, parse_first_line, parse_target, set_target, parse_version,
}
use linux_socket_test.Http.Message.{Header, headers_str, add_headers}
use linux_socket_test.Procmon.Server.{page, unknown, on_message}
use linux_socket_test.Procmon.Pages.{file, status, kept}
use linux_socket_test.Procmon.Replies.{
  answer, response_bytes, not_found_str, response_bytes-not_found, on_message_answers,
}
use linux_socket_test.Procmon.Samples.{whole, host, line_at, monitor}

abbrev cast : List ℕ → Option ℤ
cast (c ∷ []) = some (pos (c - 48))
cast _ = none

abbrev line : List ℕ
line = codes "GET /status HTTP/1.0"

abbrev parsed : HttpRequest
unfolding Request.new
parsed = record (Request.new) { method = get; path = codes "/status"; version = http10 }

abbrev keep : Header
keep = (codes "Connection", codes " Keep-Alive")

abbrev arrived : List ℕ
arrived = line ++ 13 ∷ 10 ∷ headers_str (keep ∷ []) (codes "rest")

first_line_good : parse_first_line Request.new line ≡ (true, parsed)
unfolding parse_first_line parse_target set_target parse_version set_method method_of eq_bytes
    break_at Request.new
first_line_good = refl

no_length : get_header (add_headers parsed (keep ∷ [])) (codes "Content-Length") ≡ []
unfolding add_headers add_header get_header insert lookup eq_bytes parsed
no_length = refl

on_message_answers_example :
    let response = answer (page none (codes "7 (sh)" ++ line_at 100 7)) false in
    (b' : List ℕ) × (on_message whole
        (host (line_at 100 7))
        list_buffer
        []
        cast
        9
        monitor
        Context.new
        arrived
      ≡ some (record {
        context = Context.new;
        buffer = b';
        sent = response_bytes whole (host (line_at 100 7)) list_buffer [] cast response;
        shut = response.close_connection;
      }))
    × (b' ≡ codes "rest")
unfolding add_headers add_header insert eq_bytes parsed get_header lookup
on_message_answers_example =
    on_message_answers whole (host (line_at 100 7)) list_buffer [] cast 9 monitor arrived line
      parsed (keep ∷ []) (codes "rest") (page none (codes "7 (sh)" ++ line_at 100 7)) false refl
      (omega arith) first_line_good ((omega arith, omega arith, omega arith), tt) no_length
      (omega arith) (file (codes "status") status) (kept refl)

not_found :
    response_bytes whole (host []) list_buffer [] cast (answer unknown false) ≡ not_found_str
not_found = response_bytes-not_found whole (host []) list_buffer [] cast false refl
