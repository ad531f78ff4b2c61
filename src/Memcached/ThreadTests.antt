-- ===== src/Memcached/ThreadTests.antt =====
-- Two threads that store and fetch an item of the same shard.
use linux_socket_test.Prelude.{ℕ, ◌≡◌, ◌<◌, ◌⊎◌, refl, [], ◌∷◌, none, some, codes, length, eq_bytes}
use linux_socket_test.Memcached.Item.{Item, plain_item, key}
use linux_socket_test.Memcached.Server.{find, insert, equal}
use linux_socket_test.Memcached.Threads.{
  store, get, call_shard, stored, got, System, Step, enter, lock, load, commit_store, commit_get,
  unlock, Reach, start, later, replay, Answered,
}
use linux_socket_test.Memcached.Linear.{steps_left, calls_are_atomic, lock_waits_for_step}

abbrev item : Item
item = plain_item length (codes "k") 1 0 (codes "x")

-- Thread 0 holds the shard, thread 1 waits for it.
abbrev contended : (s : System) × Reach s
contended = (
  _,
  later (later (later start (enter 0 (store item) refl)) (enter 1 (get item) refl))
      (lock 0 (store item) refl refl),
)

-- Thread 0 stores the item, thread 1 finds it.
abbrev finished : (s : System) × Reach s
finished = (
  _,
  later
      (later
        (later
          (later
            (later (later contended.1 (load 0 (store item) refl)) (commit_store 0 item [] refl))
            (unlock 0 (store item) refl))
          (lock 1 (get item) refl refl))
        (load 1 (get item) refl))
      (commit_get 1 item (insert item []) refl),
)

found : finished.0.log ≡ got item (some item) ∷ stored item ∷ []
unfolding insert find equal eq_bytes key
found = refl

calls_are_atomic_example :
    ((n : ℕ) → finished.0.items n ≡ replay finished.0.log n) × Answered finished.0.log
calls_are_atomic_example = calls_are_atomic finished.1

lock_waits_for_step_example :
    (contended.0.holder (call_shard (get item)) ≡ none)
    ⊎ ((j : ℕ) × (contended.0.holder (call_shard (get item)) ≡ some j)
        × (t : System) × Step contended.0 t
        × (steps_left (t.pc j) < steps_left (contended.0.pc j)))
lock_waits_for_step_example = lock_waits_for_step 1 (get item) contended.1 refl
