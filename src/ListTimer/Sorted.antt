-- ===== src/ListTimer/Sorted.antt =====
-- list_timer.h: adding and adjusting keep the list sorted.
use linux_socket_test.Prelude.{ℕ, suc, ◌≤◌, ◌≡◌, refl, ap, ◌∙◌, List, [], ◌∷◌, ◌++◌, some, arith}
use linux_socket_test.ListTimer.{UtilTimer, SortTimerLst, add_after, add_timer}
use native.Mathlib.Decide.{dec_lt}

-- The timers are sorted by their time, all of them at `m` or later.
pub data IsSortedFrom : ℕ → List UtilTimer → Type 0 where
  nil : {m : ℕ} → IsSortedFrom m []
  cons :
      {m : ℕ} (t : UtilTimer) {ts : List UtilTimer}
      → m ≤ t.expire
      → IsSortedFrom t.expire ts
      → IsSortedFrom m (t ∷ ts)

pub lower : {m n : ℕ} {ts : List UtilTimer} → m ≤ n → IsSortedFrom n ts → IsSortedFrom m ts
lower h nil = nil
lower h (cons t k rest) = cons t (omega arith) rest

pub add_after-IsSorted :
    (timer : UtilTimer) {m : ℕ} {ts : List UtilTimer}
    → m ≤ timer.expire
    → IsSortedFrom m ts
    → IsSortedFrom m (add_after timer ts)
unfolding add_after
add_after-IsSorted timer h nil = cons timer h nil
add_after-IsSorted timer {m = m} h (cons t {ts = ts} k rest) = elim (dec_lt timer.expire t.expire) [
  | yes l ↦
      let e : add_after timer (t ∷ ts) ≡ timer ∷ t ∷ ts = ground arith in
      rw e (cons timer h (cons t (omega arith) rest))
  | no g ↦
      let e : add_after timer (t ∷ ts) ≡ t ∷ add_after timer ts = ground arith in
      rw e (cons t k (add_after-IsSorted timer (omega arith) rest))
]

-- The public `add_timer` does what its overload does behind a node that expires before all others.
pub add_timer-add_after :
    (timer : UtilTimer) (ts : SortTimerLst) → add_timer (some timer) ts ≡ add_after timer ts
unfolding add_timer add_after
add_timer-add_after timer [] = refl
add_timer-add_after timer (head ∷ rest) = refl

-- Where `add_after` puts a timer.
record Placed (timer : UtilTimer) (m : ℕ) (ts result : List UtilTimer) : Type 0 where
  pub before : List UtilTimer
  pub after : List UtilTimer
  pub split : ts ≡ before ++ after
  pub placed : result ≡ before ++ timer ∷ after
  pub later : IsSortedFrom (suc timer.expire) after

add_after-Placed :
    (timer : UtilTimer) {m : ℕ} {ts : List UtilTimer}
    → IsSortedFrom m ts
    → Placed timer m ts (add_after timer ts)
unfolding add_after
add_after-Placed timer nil = record {
  before = [];
  after = [];
  split = refl;
  placed = refl;
  later = nil;
}
add_after-Placed timer {m = m} (cons t {ts = ts} k rest) = elim (dec_lt timer.expire t.expire) [
  | yes l ↦ record {
    before = [];
    after = t ∷ ts;
    split = refl;
    placed = ground arith;
    later = cons t (omega arith) rest;
  }
  | no g ↦
      let ih = add_after-Placed timer rest in
      let e : add_after timer (t ∷ ts) ≡ t ∷ add_after timer ts = ground arith in
      record {
        before = t ∷ ih.before;
        after = ih.after;
        split = ap (◌∷◌ t) ih.split;
        placed = e ∙ ap (◌∷◌ t) ih.placed;
        later = ih.later;
      }
]

-- Adding a timer to a sorted list puts it behind all timers that do not expire later and before
-- all that do, leaves the others in their order, and keeps the list sorted.
pub add_timer_places :
    (timer : UtilTimer) (ts : SortTimerLst)
    → IsSortedFrom 0 ts
    → (before : List UtilTimer) × (after : List UtilTimer) × (ts ≡ before ++ after)
      × (add_timer (some timer) ts ≡ before ++ timer ∷ after)
      × IsSortedFrom (suc timer.expire) after
      × IsSortedFrom 0 (add_timer (some timer) ts)
add_timer_places timer ts h =
    let p = add_after-Placed timer h in
    let e = add_timer-add_after timer ts in
    rw e (p.before, p.after, p.split, p.placed, p.later, add_after-IsSorted timer (omega arith) h)
