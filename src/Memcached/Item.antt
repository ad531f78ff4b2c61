-- ===== src/Memcached/Item.antt =====
-- memcached/server/item.h and item.cpp: a stored value with its key, in one block of memory.
use linux_socket_test.Prelude.{
  ℕ, ◌+◌, ◌%◌, ◌^◌, ◌≡◌, ◌<◌, List, [], ◌++◌, Option, none, some, Bool, arith, leb, ltb, not, ◌&&◌,
  if◌then◌else◌, length, take, drop, take-length-append, drop-length-append, take_whole,
}

-- An `int` is its bit pattern.
abbrev pub to_int : ℕ → ℕ
to_int n = n % 2 ^ 32

abbrev pub is_negative : ℕ → Bool
is_negative w = leb (2 ^ 31) w

pub record Item : Type 0 where
  pub key_len : ℕ
  pub flag : ℕ
  pub exptime : ℕ
  pub value_len : ℕ
  pub hash : ℕ
  pub block : List ℕ

unfoldable pub key : Item → List ℕ
key i = take i.key_len i.block

unfoldable pub value : Item → List ℕ
value i = take i.value_len (drop i.key_len i.block)

unfoldable pub total_len : Item → ℕ
total_len i = i.key_len + i.value_len

-- `boost::hash_range` over the bytes of a key is a parameter.
module _ (hash_range : List ℕ → ℕ) where
  -- The constructor; `none` is an assertion that fails.
  unfoldable pub make_item : List ℕ → ℕ → ℕ → List ℕ → Option Item
  make_item key_arg flag exptime value_arg =
      let key_len = to_int (length key_arg) in
      let value_len = to_int (length value_arg) in
      if ltb 0 key_len
        && not (is_negative key_len)
        && not (is_negative exptime)
        && not (is_negative value_len)
      then some (record {
        key_len = key_len;
        flag = flag;
        exptime = exptime;
        value_len = value_len;
        hash = hash_range key_arg;
        block = take key_len key_arg ++ take value_len value_arg;
      })
      else none

  unfoldable pub make_key_item : List ℕ → Option Item
  unfolding make_item
  make_key_item key_arg = make_item key_arg 0 0 []

  -- The item that the constructor builds where all lengths are `int`s.
  abbrev pub plain_item : List ℕ → ℕ → ℕ → List ℕ → Item
  plain_item k flag exptime v = record {
    key_len = length k;
    flag = flag;
    exptime = exptime;
    value_len = length v;
    hash = hash_range k;
    block = k ++ v;
  }

  pub make_item-plain :
      (k v : List ℕ) (flag exptime : ℕ)
      → 0 < length k
      → length k < 2 ^ 31
      → length v < 2 ^ 31
      → exptime < 2 ^ 31
      → make_item k flag exptime v ≡ some (plain_item k flag exptime v)
  unfolding make_item
  make_item-plain k v flag exptime positive hk hv he =
      let ek : to_int (length k) ≡ length k = omega arith in
      let ev : to_int (length v) ≡ length v = omega arith in
      rw (ek, ev, take_whole k, take_whole v) (ground arith)

  pub key-plain : (k v : List ℕ) (flag exptime : ℕ) → key (plain_item k flag exptime v) ≡ k
  unfolding key
  key-plain k v flag exptime = take-length-append k v

  pub value-plain : (k v : List ℕ) (flag exptime : ℕ) → value (plain_item k flag exptime v) ≡ v
  unfolding value
  value-plain k v flag exptime = rw (drop-length-append k v) (take_whole v)
