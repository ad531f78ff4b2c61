-- ===== src/Http/Request.antt =====
-- http/http_request.h: HttpRequest.
use linux_socket_test.Prelude.{
  ℕ, ◌-◌, List, [], ◌∷◌, ◌++◌, Option, none, some, Bool, true, false, leb, if◌then◌else◌, eq_bytes,
  codes, is_space, length,
}
use linux_socket_test.Prelude.Int.{ℤ, pos, negsuc}
use linux_socket_test.Http.StdMap.{Headers, insert, lookup}

pub data Method : Type 0 where
  invalid get post head put delete : Method

pub data Version : Type 0 where
  unknown http10 http11 : Version

pub record HttpRequest : Type 0 where
  pub method : Method
  pub path : List ℕ
  pub query : List ℕ
  pub body : List ℕ
  pub version : Version
  pub headers : Headers

unfoldable pub new : HttpRequest
new = record { method = invalid; path = []; query = []; body = []; version = unknown; headers = [] }

-- The ladder of comparisons in `set_method`.
unfoldable pub method_of : List ℕ → Method
method_of m =
    if eq_bytes m (codes "GET")
    then get
    else if eq_bytes m (codes "POST")
    then post
    else if eq_bytes m (codes "HEAD")
    then head
    else if eq_bytes m (codes "PUT")
    then put
    else if eq_bytes m (codes "DELETE")
    then delete
    else invalid

abbrev pub is_valid : Method → Bool
is_valid invalid = false
is_valid _ = true

unfoldable pub set_method : HttpRequest → List ℕ → Bool × HttpRequest
unfolding method_of
set_method r m = (is_valid (method_of m), record r { method = method_of m })

unfoldable pub method_str : Method → List ℕ
method_str get = codes "GET"
method_str post = codes "POST"
method_str head = codes "HEAD"
method_str put = codes "PUT"
method_str delete = codes "DELETE"
method_str invalid = codes "INVALID"

-- The first loop of `add_header`, which skips white space.
unfoldable pub skip_spaces : List ℕ → List ℕ
skip_spaces [] = []
skip_spaces (x ∷ xs) = if is_space x then skip_spaces xs else x ∷ xs

-- The second loop of `add_header`, which shortens the value while its last byte is white space.
unfoldable pub trim_right : List ℕ → List ℕ
trim_right [] = []
trim_right (x ∷ xs) = keep x (trim_right xs)
  where
    keep : ℕ → List ℕ → List ℕ
    keep y [] = if is_space y then [] else y ∷ []
    keep y (z ∷ zs) = y ∷ z ∷ zs

-- `add_header`, given what stands before the colon and behind it.
unfoldable pub add_header : HttpRequest → List ℕ → List ℕ → HttpRequest
unfolding skip_spaces trim_right
add_header r field after = record r {
  headers = insert field (trim_right (skip_spaces after)) r.headers;
}

unfoldable pub get_header : HttpRequest → List ℕ → List ℕ
get_header r field = elim (lookup field r.headers) [ none ↦ [] | some v ↦ v ]

-- `lexical_cast<ssize_t>` is boost's; `none` is the exception `bad_lexical_cast`.
module _ (lexical_cast : List ℕ → Option ℤ) where
  unfoldable pub get_expect_body_len : HttpRequest → ℤ
  get_expect_body_len r = elim (lexical_cast (get_header r (codes "Content-Length"))) [
    | none ↦ pos 0
    | some n ↦ n
  ]

  -- `none` is the assertion that the body is not longer than announced.
  unfoldable pub get_remain_body_len : HttpRequest → Option ℕ
  unfolding get_expect_body_len
  get_remain_body_len r = elim (get_expect_body_len r) [
    | pos n ↦ if leb (length r.body) n then some (n - length r.body) else none
    | negsuc n ↦ none
  ]

unfoldable pub append_body : HttpRequest → List ℕ → HttpRequest
append_body r bs = record r { body = r.body ++ bs }
