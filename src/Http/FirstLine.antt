-- ===== src/Http/FirstLine.antt =====
-- The request line: what `parse_first_line` makes of a line that a client prints.
use linux_socket_test.Prelude.{
  ℕ, ◌≡◌, ◌≢◌, refl, ap, ◌∙◌, List, [], ◌∷◌, ◌++◌, Option, none, some, true, arith, codes, Free,
  Free-append, eq_bytes, break_at-append, break_at-none,
}
use linux_socket_test.Http.Request.{
  HttpRequest, Method, invalid, Version, unknown, http10, http11, method_str, method_of, set_method,
  is_valid,
}
use linux_socket_test.Http.Context.{parse_version, set_target, parse_target, parse_first_line}

unfoldable pub version_str : Version → List ℕ
version_str http11 = codes "HTTP/1.1"
version_str http10 = codes "HTTP/1.0"
version_str unknown = []

-- A target with its query, if it has one.
unfoldable pub target_str : List ℕ → Option (List ℕ) → List ℕ
target_str p none = p
target_str p (some q) = p ++ b'?' ∷ q

unfoldable pub first_line : Method → List ℕ → Option (List ℕ) → Version → List ℕ
first_line m p q v = method_str m ++ b' ' ∷ (target_str p q ++ b' ' ∷ version_str v)

method_of-method_str : (m : Method) → is_valid m ≡ true → method_of (method_str m) ≡ m
unfolding method_of method_str eq_bytes
method_of-method_str invalid h = cc
method_of-method_str m h = refl

method_str-Free : (m : Method) → is_valid m ≡ true → Free b' ' (method_str m)
unfolding method_str
method_str-Free invalid h = cc
method_str-Free m h = omega arith

parse_version-version_str :
    (r : HttpRequest) (v : Version)
    → v ≢ unknown
    → parse_version r (version_str v) ≡ (true, record r { version = v })
unfolding parse_version version_str eq_bytes
parse_version-version_str r http11 h = refl
parse_version-version_str r http10 h = refl
parse_version-version_str r unknown h = absurd (h refl)

-- The request with the target's path, and its query if it has one.
unfoldable pub with_target : HttpRequest → List ℕ → Option (List ℕ) → HttpRequest
with_target r p none = record r { path = p }
with_target r p (some q) = record r { path = p; query = b'?' ∷ q }

-- A query is free of blanks.
abbrev pub IsQuery : Option (List ℕ) → Type 0
IsQuery none = Unit
IsQuery (some q) = Free b' ' q

set_target-target_str :
    (r : HttpRequest) (p : List ℕ) (q : Option (List ℕ))
    → Free b'?' p
    → set_target r (target_str p q) ≡ with_target r p q
unfolding set_target target_str with_target
set_target-target_str r p none h = rw (break_at-none b'?' p h, set_target)
set_target-target_str r p (some q) h = rw (break_at-append b'?' p q h, set_target)

target_str-Free :
    (p : List ℕ) (q : Option (List ℕ)) → Free b' ' p → IsQuery q → Free b' ' (target_str p q)
unfolding target_str
target_str-Free p none h k = h
target_str-Free p (some q) h k = Free-append b' ' p (b'?' ∷ q) h (omega arith, k)

set_method-method_str :
    (r : HttpRequest) (m : Method)
    → is_valid m ≡ true
    → set_method r (method_str m) ≡ (true, record r { method = m })
unfolding set_method
set_method-method_str r m h = rw (method_of-method_str m h, h)

parse_target-target :
    (r : HttpRequest) (target v : List ℕ)
    → Free b' ' target
    → parse_target r (target ++ b' ' ∷ v) ≡ parse_version (set_target r target) v
unfolding parse_target
parse_target-target r target v h = rw (break_at-append b' ' target v h, parse_target)

parse_first_line-method :
    (r r' : HttpRequest) (m rest : List ℕ)
    → Free b' ' m
    → set_method r m ≡ (true, r')
    → parse_first_line r (m ++ b' ' ∷ rest) ≡ parse_target r' rest
unfolding parse_first_line
parse_first_line-method r r' m rest h e =
    rw (break_at-append b' ' m rest h, parse_first_line) (rw e)

-- Whatever the request held before, a request line printed from a valid method, a path without
-- blanks and question marks, a query without blanks or none, and version 1.0 or 1.1 is accepted;
-- it sets the method, the path and the version to what was printed, and the query, if there is
-- one, to the printed query behind its question mark.
pub parse_first_line-first_line :
    (r : HttpRequest) (m : Method) (p : List ℕ) (q : Option (List ℕ)) (v : Version)
    → is_valid m ≡ true
    → Free b' ' p
    → Free b'?' p
    → IsQuery q
    → v ≢ unknown
    → parse_first_line r (first_line m p q v)
      ≡ (true, record (with_target (record r { method = m }) p q) { version = v })
unfolding first_line
parse_first_line-first_line r m p q v hm hp hp' hq hv =
    let r' = record r { method = m } in
    parse_first_line-method r r' (method_str m) (target_str p q ++ b' ' ∷ version_str v)
      (method_str-Free m hm) (set_method-method_str r m hm)
    ∙ parse_target-target r' (target_str p q) (version_str v) (target_str-Free p q hp hq)
    ∙ ap (λ t. parse_version t (version_str v)) (set_target-target_str r' p q hp')
    ∙ parse_version-version_str (with_target r' p q) v hv
