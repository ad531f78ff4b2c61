-- ===== src/Memcached/Server.antt =====
-- memcached/server/memcached_server.h and memcached_server.cpp: the store, cut into shards, and the
-- table of sessions. Each operation runs under one lock, so it is one step here.
use linux_socket_test.Prelude.{
  ℕ, ◌%◌, List, [], ◌∷◌, Option, none, some, Bool, true, false, ◌==◌, if◌then◌else◌, eq_bytes,
}
use linux_socket_test.Memcached.Item.{Item, key}

abbrev pub shards : ℕ
shards = 4096

-- `std::unordered_set` with `Equal`: no two elements have equal keys, and the order is not
-- specified.
abbrev pub ItemMap : Type 0
ItemMap = List Item

-- `Equal`.
unfoldable pub equal : Item → Item → Bool
equal x y = eq_bytes (key x) (key y)

unfoldable pub find : Item → ItemMap → Option Item
unfolding equal
find k [] = none
find k (x ∷ xs) = if equal x k then some x else find k xs

-- `insert`, which leaves the set alone if it has an equal element.
unfoldable pub insert : Item → ItemMap → ItemMap
insert x xs = elim (find x xs) [ none ↦ x ∷ xs | some _ ↦ xs ]

-- The array of shards.
abbrev pub Shards : Type 0
Shards = ℕ → ItemMap

abbrev pub shard_of : Item → ℕ
shard_of i = i.hash % shards

unfoldable pub store_item : Shards → Item → Shards
store_item s i n = if n == shard_of i then insert i (s n) else s n

-- `none` is the null pointer.
unfoldable pub get_item : Shards → Item → Option Item
get_item s k = find k (s (shard_of k))

-- The table of sessions: the names of the open connections, each with its session.
abbrev pub Sessions : Type 0 → Type 0
Sessions S = List (List ℕ × S)

unfoldable pub has_session : {S : Type 0} → List ℕ → Sessions S → Bool
has_session name [] = false
has_session name ((n, s) ∷ xs) = if eq_bytes n name then true else has_session name xs

unfoldable pub erase : {S : Type 0} → List ℕ → Sessions S → Sessions S
erase name [] = []
erase name ((n, s) ∷ xs) = if eq_bytes n name then xs else (n, s) ∷ erase name xs

-- `onConnection`, with whether the connection is up; `none` is an assertion that fails.
unfoldable pub on_connection : {S : Type 0} → Bool → List ℕ → S → Sessions S → Option (Sessions S)
on_connection true name s xs = if has_session name xs then none else some ((name, s) ∷ xs)
on_connection false name s xs = if has_session name xs then some (erase name xs) else none
