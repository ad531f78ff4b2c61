-- ===== src/Http/Tests.antt =====
-- Requests after http/tests/http_unittest.cpp, and the theorems of the parser at concrete inputs.
use linux_socket_test.Prelude.{
  ℕ, ◌-◌, ◌≡◌, refl, List, [], ◌∷◌, ◌++◌, Option, none, some, true, arith, codes, length, eq_bytes,
  break_at, if◌then◌else◌, ◌==◌,
}
use linux_socket_test.Prelude.{false, ◌≤◌}
use linux_socket_test.Prelude.Decimal.{show_nat, show_digits, decimal_value}
use linux_socket_test.Http.Response
use linux_socket_test.Http.Response.{
  HttpResponse, ok, set_body, set_status_message, set_status_code, set_content_type,
  set_close_connection, append_to_buffer, append_headers, append_connection, code_value,
  status_start,
}
use linux_socket_test.Http.Frame.{header_lines, append_to_buffer-headers_str}
use linux_socket_test.Prelude.Int.{ℤ, pos}
use linux_socket_test.Muduo.{list_buffer}
use linux_socket_test.Http.StdMap.{insert, lookup}
use linux_socket_test.Http.Request
use linux_socket_test.Http.Request.{
  HttpRequest, get, http11, method_of, method_str, set_method, add_header, get_header, append_body,
  get_expect_body_len,
}
use linux_socket_test.Http.Context.{
  expect_body, got_all, done, parse_first_line, parse_target, set_target, parse_version,
  parse_request,
}
use linux_socket_test.Http.FirstLine.{first_line, with_target, parse_first_line-first_line}
use linux_socket_test.Http.Message.{Header, headers_str}
use linux_socket_test.Http.Body.{parse_request-body}

-- A cast that knows the numbers of one digit.
abbrev cast : List ℕ → Option ℤ
cast (c ∷ []) = some (pos (c - 48))
cast _ = none

abbrev line : List ℕ
line = codes "GET /index.html HTTP/1.1"

abbrev host : Header
host = (codes "Host", codes " www.chenshuo.com")

abbrev parsed : HttpRequest
parsed = record {
  method = get;
  path = codes "/index.html";
  query = [];
  body = [];
  version = http11;
  headers = [];
}

-- A request whose body of three bytes is announced and has not arrived.
abbrev announced : HttpRequest
announced = record parsed { headers = (codes "Content-Length", codes "3") ∷ [] }

unit_test : parse_first_line Request.new line ≡ (true, parsed)
unfolding parse_first_line parse_target set_target parse_version set_method method_of eq_bytes
    break_at Request.new
unit_test = refl

host_header :
    get_header (add_header parsed (codes "Host") (codes " www.chenshuo.com  ")) (codes "Host")
    ≡ codes "www.chenshuo.com"
unfolding add_header get_header insert lookup eq_bytes
host_header = refl

parse_first_line-first_line_example :
    parse_first_line Request.new (first_line get (codes "/a") (some (codes "b=1")) http11) ≡ (
      true,
      record (Request.new) {
        method = get;
        path = codes "/a";
        query = codes "?b=1";
        version = http11;
      },
    )
unfolding with_target Request.new
parse_first_line-first_line_example =
    parse_first_line-first_line Request.new get (codes "/a") (some (codes "b=1")) http11 refl
      (omega arith) (omega arith) (omega arith) (cc)

parse_request-body_example :
    let r' = append_body announced (codes "ab") in
    (b' : List ℕ) × (parse_request list_buffer cast 1
        (record { state = expect_body; request = announced })
        (codes "ab")
      ≡ some (
          done true
            (record { state = if length r'.body == 3 then got_all else expect_body; request = r' })
            b'))
    × (b' ≡ [])
unfolding get_expect_body_len get_header lookup eq_bytes
parse_request-body_example =
    parse_request-body list_buffer cast 0 3 announced (codes "ab") refl (omega arith)

abbrev reply : HttpResponse
reply = record {
  headers = (codes "Content-Type", codes "text/plain") ∷ [];
  body = codes "abc";
  status_message = codes "OK";
  status_code = ok;
  close_connection = false;
}

built_reply :
    set_body
      (set_status_message
        (set_status_code
          (set_content_type (set_close_connection (Response.new true) false) (codes "text/plain"))
          ok)
        (codes "OK"))
      (codes "abc")
    ≡ reply
unfolding Response.new set_body set_status_message set_status_code set_content_type
    Response.add_header set_close_connection insert eq_bytes
built_reply = refl

written_reply :
    append_to_buffer list_buffer reply []
    ≡ codes
        "HTTP/1.1 200 OK\r\nContent-Length: 3\r\nConnection: Keep-Alive\r\nContent-Type: text/plain\r\n\r\nabc"
unfolding append_to_buffer append_headers append_connection code_value show_nat show_digits
written_reply = refl

few_digits : length (show_nat 3) ≤ 13
unfolding show_nat show_digits
few_digits = omega arith

append_to_buffer-headers_str_example :
    (append_to_buffer list_buffer reply []
      ≡ status_start reply
        ++ codes "OK"
        ++ codes "\r\n"
        ++ headers_str
            ((codes "Content-Length", b' ' ∷ show_nat 3)
              ∷ (codes "Connection", codes " Keep-Alive")
              ∷ header_lines reply.headers)
            (codes "abc"))
    × (decimal_value 0 (show_nat 3) ≡ 3)
append_to_buffer-headers_str_example =
    append_to_buffer-headers_str list_buffer reply [] refl few_digits
