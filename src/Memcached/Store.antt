-- ===== src/Memcached/Store.antt =====
-- What the store promises its sessions: a table in which the first item of a key stays.
use linux_socket_test.Prelude.{
  ℕ, ◌≡◌, refl, sym, ap, ◌∙◌, List, [], ◌∷◌, none, some, true, ◌==◌, if◌then◌else◌, arith,
  eq_bytes_iff, Bool-cases, inl, inr,
}
use linux_socket_test.Memcached.Item.{Item, key}
use linux_socket_test.Memcached.Server.{
  ItemMap, equal, find, insert, Shards, shard_of, store_item, get_item,
}

equal→eq : (x y : Item) → equal x y ≡ true → key x ≡ key y
unfolding equal
equal→eq x y h = (eq_bytes_iff (key x) (key y)).0 h

-- Two items with equal keys are found alike.
find-equal : (x y : Item) (xs : ItemMap) → key x ≡ key y → find x xs ≡ find y xs
unfolding find
find-equal x y [] h = refl
find-equal x y (z ∷ xs) h = rw (h, find-equal x y xs h)

find-insert :
    (x k : Item) (xs : ItemMap)
    → find k (insert x xs)
      ≡ elim (find k xs) [ none ↦ if equal x k then some x else none | some y ↦ some y ]
unfolding insert find
find-insert x k xs = elim (Bool-cases (equal x k)) [
  | inl e ↦ ground (arith, e, find-equal x k xs (equal→eq x k e))
  | inr e ↦ ground (arith, e)
]

-- The hash of an item is that of its key.
abbrev pub IsHashed : (List ℕ → ℕ) → Item → Type 0
IsHashed h i = i.hash ≡ h (key i)

-- What a session finds after an item is stored, for every key: the item that was there before, and
-- only if there was none and the key is the stored item's, that item. So an item that is stored
-- under a key in use is dropped, and no other key is affected.
pub get_item-store_item :
    (h : List ℕ → ℕ) (s : Shards) (i k : Item)
    → IsHashed h i
    → IsHashed h k
    → get_item (store_item s i) k
      ≡ elim (get_item s k) [ none ↦ if equal i k then some i else none | some old ↦ some old ]
unfolding get_item store_item
get_item-store_item h s i k hi hk = elim (Bool-cases (shard_of k == shard_of i)) [
  | inl e ↦ ground (arith, find-insert i k (s (shard_of i)))
  | inr e ↦ elim (Bool-cases (equal i k)) [
    | inl same ↦
        let hashes = hi ∙ ap h (equal→eq i k same) ∙ sym hk in absurd (ground (arith, e, hashes))
    | inr other ↦ ground (arith, e, other)
  ]
]
