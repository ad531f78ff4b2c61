-- ===== src/Memcached/Linear.antt =====
-- memcached/server/memcached_server.cpp: what the locks of the shards give. Every run of the threads
-- is a sequence of whole calls.
use linux_socket_test.Prelude.{
  ℕ, ◌≡◌, ◌⊎◌, inl, inr, refl, sym, ap, ◌∙◌, none, some, Bool, true, false, ◌==◌, arith,
  Option-cases, ◌<◌,
}
use mathlib.Core.Bool.{false≢true}
use native.Mathlib.Decide.{ℕ_discrete}
use linux_socket_test.Memcached.Server.{ItemMap, find, shard_of, store_item, get_item}
use linux_socket_test.Memcached.Threads.{
  update, Call, store, get, call_shard, Pc, idle, waiting, locked, loaded, leaving, System, Step,
  enter, lock, load, commit_store, commit_get, unlock, Reach, start, later, replay, Answered,
}

-- A thread is between the lock and the unlock of a shard.
abbrev pub holds : Pc → ℕ → Bool
holds idle n = false
holds (waiting c) n = false
holds (locked c) n = call_shard c == n
holds (loaded c xs) n = call_shard c == n
holds (leaving c) n = call_shard c == n

pub record Inv (s : System) : Type 0 where
  pub owned : (i n : ℕ) → holds (s.pc i) n ≡ true → s.holder n ≡ some i
  pub held : (i n : ℕ) → s.holder n ≡ some i → holds (s.pc i) n ≡ true
  pub fresh : (i : ℕ) (c : Call) (xs : ItemMap) → s.pc i ≡ loaded c xs → xs ≡ s.items (call_shard c)
  pub replays : (n : ℕ) → s.items n ≡ replay s.log n
  pub answered : Answered s.log

-- A step of a thread that keeps what it holds.
holds-update :
    (pc : ℕ → Pc) (i : ℕ) (p : Pc)
    → ((n : ℕ) → holds p n ≡ holds (pc i) n)
    → (j n : ℕ) → holds (update pc i p j) n ≡ holds (pc j) n
holds-update pc i p h j n = elim (ℕ_discrete j i) [
  | yes q ↦ ground (arith, q, h n)
  | no q ↦ ground (arith, q)
]

-- Two threads do not hold the same shard.
pub holds_once :
    {s : System} → Inv s → (i j n : ℕ) → holds (s.pc i) n ≡ true → holds (s.pc j) n ≡ true → i ≡ j
holds_once v i j n h k = ground (arith, v.owned i n h, v.owned j n k)

keeps-owned :
    {s : System}
    → Inv s
    → (i : ℕ) (p : Pc) → ((n : ℕ) → holds p n ≡ holds (s.pc i) n)
    → (j n : ℕ) → holds (update s.pc i p j) n ≡ true
    → s.holder n ≡ some j
keeps-owned {s} v i p same j n h = v.owned j n (sym (holds-update s.pc i p same j n) ∙ h)

keeps-held :
    {s : System}
    → Inv s
    → (i : ℕ) (p : Pc) → ((n : ℕ) → holds p n ≡ holds (s.pc i) n)
    → (j n : ℕ) → s.holder n ≡ some j
    → holds (update s.pc i p j) n ≡ true
keeps-held {s} v i p same j n h = holds-update s.pc i p same j n ∙ v.held j n h

-- Has the thread read a set?
abbrev has_loaded : Pc → Bool
has_loaded (loaded c xs) = true
has_loaded _ = false

keeps-fresh :
    {s : System}
    → Inv s
    → (i : ℕ) (p : Pc) → has_loaded p ≡ false
    → (j : ℕ) (c : Call) (xs : ItemMap) → update s.pc i p j ≡ loaded c xs
    → xs ≡ s.items (call_shard c)
keeps-fresh v i p none_loaded j c xs h = elim (ℕ_discrete j i) [
  | yes q ↦
      let e : p ≡ loaded c xs = ground (arith, q, h) in
      absurd (false≢true (sym none_loaded ∙ ap has_loaded e))
  | no q ↦ v.fresh j c xs (ground (arith, q, h))
]

Step-Inv : {s t : System} → Inv s → Step s t → Inv t
unfolding replay store_item get_item
Step-Inv {s} v (enter i c e) = record {
  owned = keeps-owned v i (waiting c) (λ n. rw e refl);
  held = keeps-held v i (waiting c) (λ n. rw e refl);
  fresh = keeps-fresh v i (waiting c) refl;
  replays = v.replays;
  answered = v.answered;
}
Step-Inv {s} v (lock i c e free) = record {
  owned = λ j n h. elim (ℕ_discrete j i) [
    | yes q ↦ ground (arith, q, h)
    | no q ↦ ground (arith, q, v.owned j n, h, free)
  ];
  held = λ j n h. elim (ℕ_discrete n (call_shard c)) [
    | yes q ↦ ground (arith, q, h)
    | no q ↦ ground (arith, q, v.held j n, h, e)
  ];
  fresh = keeps-fresh v i (locked c) refl;
  replays = v.replays;
  answered = v.answered;
}
Step-Inv {s} v (load i c e) = record {
  owned = keeps-owned v i (loaded c (s.items (call_shard c))) (λ n. rw e refl);
  held = keeps-held v i (loaded c (s.items (call_shard c))) (λ n. rw e refl);
  fresh = λ j c' xs h. elim (ℕ_discrete j i) [
    | yes q ↦ ground (arith, q, h)
    | no q ↦ v.fresh j c' xs (ground (arith, q, h))
  ];
  replays = v.replays;
  answered = v.answered;
}
Step-Inv {s} v (commit_store i x xs e) = record {
  owned = keeps-owned v i (leaving (store x)) (λ n. rw e refl);
  held = keeps-held v i (leaving (store x)) (λ n. rw e refl);
  fresh = λ j c ys h. elim (ℕ_discrete j i) [
    | yes q ↦ absurd (ground (arith, q, h))
    | no q ↦
        let k : s.pc j ≡ loaded c ys = ground (arith, q, h) in
        v.fresh j c ys k ∙ ground (arith, q, k, e, v.owned j (call_shard c), v.owned i (shard_of x))
  ];
  replays = λ n. ground (arith, v.replays n, v.replays (shard_of x), v.fresh i (store x) xs e);
  answered = v.answered;
}
Step-Inv {s} v (commit_get i k xs e) = record {
  owned = keeps-owned v i (leaving (get k)) (λ n. rw e refl);
  held = keeps-held v i (leaving (get k)) (λ n. rw e refl);
  fresh = keeps-fresh v i (leaving (get k)) refl;
  replays = v.replays;
  answered = (ap (find k) (v.fresh i (get k) xs e ∙ v.replays (shard_of k)), v.answered);
}
Step-Inv {s} v (unlock i c e) = record {
  owned = λ j n h. elim (ℕ_discrete j i) [
    | yes q ↦ ground (arith, q, h)
    | no q ↦ ground (arith, q, v.owned j n, v.owned i n, h, e)
  ];
  held = λ j n h. elim (ℕ_discrete n (call_shard c)) [
    | yes q ↦ ground (arith, q, h)
    | no q ↦ ground (arith, q, v.held j n, h, e)
  ];
  fresh = keeps-fresh v i idle refl;
  replays = v.replays;
  answered = v.answered;
}

Reach-Inv : {s : System} → Reach s → Inv s
unfolding replay
Reach-Inv start = record {
  owned = λ i n h. absurd (false≢true h);
  held = λ i n h. cc;
  fresh = λ i c xs h. cc;
  replays = λ n. refl;
  answered = tt;
}
Reach-Inv (later r step) = Step-Inv (Reach-Inv r) step

-- However the threads are interleaved, the shards always hold what the calls that took effect leave
-- when they run one after the other, in the order in which they took effect; and each getItem has
-- found what it finds behind the calls before it. So a call can be taken for one step.
pub calls_are_atomic :
    {s : System} → Reach s → ((n : ℕ) → s.items n ≡ replay s.log n) × Answered s.log
calls_are_atomic r = (replays, answered)
  where
    open (Reach-Inv r) use {replays, answered}

-- The steps that a thread has before it as long as it holds a shard.
abbrev pub steps_left : Pc → ℕ
steps_left idle = 0
steps_left (waiting c) = 0
steps_left (locked c) = 3
steps_left (loaded c xs) = 2
steps_left (leaving c) = 1

-- A thread that holds a shard can make its next step.
advance :
    (s : System) (j n : ℕ) (p : Pc)
    → s.pc j ≡ p
    → holds p n ≡ true
    → (t : System) × Step s t × (steps_left (t.pc j) < steps_left (s.pc j))
advance s j n idle e h = absurd (false≢true h)
advance s j n (waiting c) e h = absurd (false≢true h)
advance s j n (locked c) e h = (_, load j c e, ground (arith, e))
advance s j n (loaded (store x) xs) e h = (_, commit_store j x xs e, ground (arith, e))
advance s j n (loaded (get k) xs) e h = (_, commit_get j k xs e, ground (arith, e))
advance s j n (leaving c) e h = (_, unlock j c e, ground (arith, e))

-- A thread that waits for a shard can lock it, or another thread holds the shard and can make its next
-- step to its unlock.
pub lock_waits_for_step :
    {s : System} (i : ℕ) (c : Call)
    → Reach s
    → s.pc i ≡ waiting c
    → (s.holder (call_shard c) ≡ none)
      ⊎ ((j : ℕ) × (s.holder (call_shard c) ≡ some j)
          × (t : System) × Step s t
          × (steps_left (t.pc j) < steps_left (s.pc j)))
lock_waits_for_step {s} i c r e = elim (Option-cases (s.holder (call_shard c))) [
  | inl free ↦ inl free
  | inr (j, h) ↦
      let (t, step, less) =
        advance s j (call_shard c) (s.pc j) refl ((Reach-Inv r).held j (call_shard c) h) in
      inr (j, h, t, step, less)
]
