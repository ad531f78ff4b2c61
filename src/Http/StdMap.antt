-- ===== src/Http/StdMap.antt =====
-- `std::map<string, string>` as http/http_request.h and http/http_response.h use it: a list of
-- pairs in the order of the keys.
use linux_socket_test.Prelude.{
  ℕ, ◌≡◌, refl, List, [], ◌∷◌, Option, none, some, Bool, true, false, arith, ltb, ◌==◌,
  if◌then◌else◌, eq_bytes, eq_bytes_iff, ◌||◌, ◌&&◌,
}

abbrev pub Headers : Type 0
Headers = List (List ℕ × List ℕ)

-- `operator<` of strings: lexicographic, by unsigned bytes.
unfoldable pub lt_bytes : List ℕ → List ℕ → Bool
lt_bytes xs [] = false
lt_bytes [] (y ∷ ys) = true
lt_bytes (x ∷ xs) (y ∷ ys) = ltb x y || (x == y && lt_bytes xs ys)

-- `m[k] = v`.
unfoldable pub insert : List ℕ → List ℕ → Headers → Headers
unfolding lt_bytes
insert k v [] = (k, v) ∷ []
insert k v ((j, w) ∷ m) =
    if eq_bytes j k
    then (k, v) ∷ m
    else if lt_bytes k j
    then (k, v) ∷ (j, w) ∷ m
    else (j, w) ∷ insert k v m

-- `find`.
unfoldable pub lookup : List ℕ → Headers → Option (List ℕ)
lookup k [] = none
lookup k ((j, w) ∷ m) = if eq_bytes j k then some w else lookup k m

pub lookup-insert :
    (k j v : List ℕ) (m : Headers)
    → lookup j (insert k v m) ≡ (if eq_bytes k j then some v else lookup j m)
unfolding lookup insert
lookup-insert k j v [] = refl
lookup-insert k j v ((i, w) ∷ m) =
    ground (arith, eq_bytes_iff k j, eq_bytes_iff i k, eq_bytes_iff i j, lookup-insert k j v m)
