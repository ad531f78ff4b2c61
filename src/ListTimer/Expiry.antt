-- ===== src/ListTimer/Expiry.antt =====
-- list_timer.h: what `tick` fires and what it leaves.
use linux_socket_test.Prelude.{ℕ, suc, ◌<◌, ◌≡◌, refl, List, [], ◌∷◌, leb, if◌then◌else◌, arith}
use linux_socket_test.ListTimer.{UtilTimer, SortTimerLst, tick}
use linux_socket_test.ListTimer.Sorted.{IsSortedFrom, nil, cons}
use native.Mathlib.Decide.{dec_lt}

-- The owners of all timers that have expired, in the order of the list, wherever they stand.
unfoldable pub expired : ℕ → List UtilTimer → List ℕ
expired cur [] = []
expired cur (t ∷ ts) =
    let rest = expired cur ts in if leb t.expire cur then t.user_data ∷ rest else rest

-- All timers that have not.
unfoldable pub pending : ℕ → List UtilTimer → List UtilTimer
pending cur [] = []
pending cur (t ∷ ts) = let rest = pending cur ts in if leb t.expire cur then rest else t ∷ rest

none_expired :
    (cur : ℕ) {m : ℕ} {ts : List UtilTimer}
    → cur < m
    → IsSortedFrom m ts
    → (expired cur ts ≡ []) × (pending cur ts ≡ ts)
unfolding expired pending
none_expired cur h nil = (refl, refl)
none_expired cur h (cons t {ts = ts} k rest) =
    let (a, b) = none_expired cur {m = t.expire} {ts = ts} (omega arith) rest in
    (ground (arith, a), ground (arith, b))

-- On a sorted list `tick`, which stops at the first timer that has not expired, runs the callbacks
-- of all timers that have expired, in the order of their times, and leaves exactly the others, in
-- a list that is sorted and wholly in the future.
pub tick_expires :
    (cur : ℕ) {m : ℕ} (ts : SortTimerLst)
    → IsSortedFrom m ts
    → ((tick cur ts).0 ≡ expired cur ts)
      × ((tick cur ts).1 ≡ pending cur ts)
      × IsSortedFrom (suc cur) ((tick cur ts).1)
unfolding tick expired pending
tick_expires cur _ nil = (refl, refl, nil)
tick_expires cur _ (cons t {ts = ts} k rest) = elim (dec_lt cur t.expire) [
  | yes h ↦
      let (a, b) = none_expired cur {m = t.expire} {ts = ts} h rest in
      let e : tick cur (t ∷ ts) ≡ ([], t ∷ ts) = ground arith in
      rw e (ground (arith, a), ground (arith, b), cons t (omega arith) rest)
  | no h ↦
      let (a, b, s) = tick_expires cur ts rest in
      let e : tick cur (t ∷ ts) ≡ (t.user_data ∷ (tick cur ts).0, (tick cur ts).1) = ground arith in
      rw e (ground (arith, a), ground (arith, b), s)
]
