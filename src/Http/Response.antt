-- ===== src/Http/Response.antt =====
-- http/http_response.h and .cpp: a response, and how it is written to a buffer.
use linux_socket_test.Prelude.{ℕ, List, [], ◌∷◌, ◌++◌, Bool, if◌then◌else◌, codes, length, take}
use linux_socket_test.Prelude.Decimal.{show_nat}
use linux_socket_test.Muduo.{BufferOps}
use linux_socket_test.Http.StdMap.{Headers, insert}

pub data HttpStatusCode : Type 0 where
  unknown ok moved_permanently bad_request not_found not_implemented error : HttpStatusCode

-- The values of the enumeration.
unfoldable pub code_value : HttpStatusCode → ℕ
code_value unknown = 0
code_value ok = 200
code_value moved_permanently = 301
code_value bad_request = 400
code_value not_found = 404
code_value not_implemented = 501
code_value error = 500

pub record HttpResponse : Type 0 where
  pub headers : Headers
  pub body : List ℕ
  pub status_message : List ℕ
  pub status_code : HttpStatusCode
  pub close_connection : Bool

unfoldable pub new : Bool → HttpResponse
new close = record {
  headers = [];
  body = [];
  status_message = [];
  status_code = unknown;
  close_connection = close;
}

unfoldable pub add_header : HttpResponse → List ℕ → List ℕ → HttpResponse
add_header r key value = record r { headers = insert key value r.headers }

unfoldable pub set_content_type : HttpResponse → List ℕ → HttpResponse
set_content_type r content_type = add_header r (codes "Content-Type") content_type

unfoldable pub set_status_message : HttpResponse → List ℕ → HttpResponse
set_status_message r message = record r { status_message = message }

unfoldable pub set_status_code : HttpResponse → HttpStatusCode → HttpResponse
set_status_code r code = record r { status_code = code }

unfoldable pub set_close_connection : HttpResponse → Bool → HttpResponse
set_close_connection r on = record r { close_connection = on }

unfoldable pub set_body : HttpResponse → List ℕ → HttpResponse
set_body r body = record r { body = body }

unfoldable pub append_body : HttpResponse → List ℕ → HttpResponse
append_body r body = record r { body = r.body ++ body }

-- `snprintf` into a `char buf[32]` keeps 31 bytes of the text.
abbrev pub snprintf : List ℕ → List ℕ
snprintf text = take 31 text

abbrev pub status_start : HttpResponse → List ℕ
status_start r = snprintf (codes "HTTP/1.1 " ++ show_nat (code_value r.status_code) ++ codes " ")

abbrev pub length_line : HttpResponse → List ℕ
length_line r = snprintf (codes "Content-Length: " ++ show_nat (length r.body) ++ codes "\r\n")

module _ (m : BufferOps) where
  open m use {Buffer, append}

  unfoldable pub append_connection : HttpResponse → Buffer → Buffer
  append_connection r b =
      if r.close_connection
      then append b (codes "Connection: close\r\n")
      else append (append b (length_line r)) (codes "Connection: Keep-Alive\r\n")

  -- The loop over the headers, in the order of the map.
  unfoldable pub append_headers : Headers → Buffer → Buffer
  append_headers [] b = b
  append_headers ((first, second) ∷ rest) b =
      append_headers rest
        (append (append (append (append b first) (codes ": ")) second) (codes "\r\n"))

  unfoldable pub append_to_buffer : HttpResponse → Buffer → Buffer
  append_to_buffer r b =
      let status = append (append (append b (status_start r)) r.status_message) (codes "\r\n") in
      let headers = append_headers r.headers (append_connection r status) in
      append (append headers (codes "\r\n")) r.body
