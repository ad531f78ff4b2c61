-- ===== src/Memcached/Threads.antt =====
-- memcached/server/memcached_server.cpp: storeItem and getItem as the threads of the server run them,
-- interleaved in any order. A thread locks the shard of its item, reads the set of items, writes the
-- set back or has its result, and unlocks.
use linux_socket_test.Prelude.{ℕ, ◌≡◌, List, [], ◌∷◌, Option, none, some, ◌==◌, if◌then◌else◌}
use linux_socket_test.Memcached.Item.{Item}
use linux_socket_test.Memcached.Server.{
  ItemMap, find, insert, Shards, shard_of, store_item, get_item,
}

abbrev pub update {ℓ} : {A : Type ℓ} → (ℕ → A) → ℕ → A → ℕ → A
update f i a j = if j == i then a else f j

pub data Call : Type 0 where
  store : Item → Call
  get : Item → Call

abbrev pub call_shard : Call → ℕ
call_shard (store i) = shard_of i
call_shard (get k) = shard_of k

-- Where a thread stands: outside the two functions, before the guard, behind it, behind the reading of
-- the set, before the end of the guard.
pub data Pc : Type 0 where
  idle : Pc
  waiting : Call → Pc
  locked : Call → Pc
  loaded : Call → ItemMap → Pc
  leaving : Call → Pc

-- What a call has done, with the result of `getItem`.
pub data Event : Type 0 where
  stored : Item → Event
  got : Item → Option Item → Event

-- `holder` has the thread that holds the mutex of each shard; `log` the calls in the order in which
-- they took effect, the last one first.
pub record System : Type 0 where
  pub items : Shards
  pub holder : ℕ → Option ℕ
  pub pc : ℕ → Pc
  pub log : List Event

abbrev pub init : System
init = record { items = λ n. []; holder = λ n. none; pc = λ i. idle; log = [] }

-- One step of thread `i`.
pub data Step (s : System) : System → Type 0 where
  enter : (i : ℕ) (c : Call) → s.pc i ≡ idle → Step s (record s { pc = update s.pc i (waiting c) })
  lock :
      (i : ℕ) (c : Call)
      → s.pc i ≡ waiting c
      → s.holder (call_shard c) ≡ none
      → Step s (record s {
        holder = update s.holder (call_shard c) (some i);
        pc = update s.pc i (locked c);
      })
  load :
      (i : ℕ) (c : Call)
      → s.pc i ≡ locked c
      → Step s (record s { pc = update s.pc i (loaded c (s.items (call_shard c))) })
  commit_store :
      (i : ℕ) (x : Item) (xs : ItemMap)
      → s.pc i ≡ loaded (store x) xs
      → Step s (record s {
        items = update s.items (shard_of x) (insert x xs);
        pc = update s.pc i (leaving (store x));
        log = stored x ∷ s.log;
      })
  commit_get :
      (i : ℕ) (k : Item) (xs : ItemMap)
      → s.pc i ≡ loaded (get k) xs
      → Step s (record s { pc = update s.pc i (leaving (get k)); log = got k (find k xs) ∷ s.log })
  unlock :
      (i : ℕ) (c : Call)
      → s.pc i ≡ leaving c
      → Step s (record s { holder = update s.holder (call_shard c) none; pc = update s.pc i idle })

pub data Reach : System → Type 0 where
  start : Reach init
  later : {s t : System} → Reach s → Step s t → Reach t

-- The calls one after the other.
unfoldable pub replay : List Event → Shards
replay [] = λ n. []
replay (stored x ∷ log) = store_item (replay log) x
replay (got k r ∷ log) = replay log

-- Each result is that of the call behind the calls before it.
abbrev pub Answered : List Event → Type 0
Answered [] = Unit
Answered (stored x ∷ log) = Answered log
Answered (got k r ∷ log) = (r ≡ get_item (replay log) k) × Answered log
