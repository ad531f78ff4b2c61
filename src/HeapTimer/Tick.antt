-- ===== src/HeapTimer/Tick.antt =====
-- min_heap_timer.h: `tick` takes all timers that have expired, and no other.
use linux_socket_test.Prelude.{
  ℕ, ◌+◌, ◌≤◌, ◌<◌, ◌≡◌, List, [], ◌∷◌, Option, some, if◌then◌else◌, ltb,
}
use linux_socket_test.HeapTimer.{HeapTimer, TimeHeap}
use linux_socket_test.HeapTimer.Order.{time, key, IsHeap, total}

-- The callbacks of timers, one by one.
unfoldable pub callbacks : List HeapTimer → List ℕ
callbacks [] = []
callbacks (t ∷ ts) = let rest = callbacks ts in if t.has_callback then t.user_data ∷ rest else rest

-- Timers in the order of their times, from `lo` to `cur`.
abbrev pub InOrder : ℕ → ℕ → List HeapTimer → Type 0
InOrder lo cur [] = Unit
InOrder lo cur (t ∷ ts) = (lo ≤ t.expire) × (t.expire ≤ cur) × InOrder t.expire cur ts

unfoldable pub weigh : (Option HeapTimer → ℕ) → List HeapTimer → ℕ
weigh f [] = 0
weigh f (t ∷ ts) = f (some t) + weigh f ts

-- The weight that counts the timers that expire before a time.
abbrev early : ℕ → Option HeapTimer → ℕ
early m x = if ltb (time x) m then 1 else 0

pub record Ticked (lo cur : ℕ) (h : TimeHeap) (result : Option (List ℕ × TimeHeap)) : Type 0 where
  pub gone : List HeapTimer
  pub left : TimeHeap
  pub returned : result ≡ some (callbacks gone, left)
  pub order : IsHeap left
  pub expired : InOrder lo cur gone
  pub pending : (i : ℕ) → i < left.cur_size → cur < key left.array i
  pub same :
      (f : Option HeapTimer → ℕ)
      → total f left.cur_size left.array + weigh f gone ≡ total f h.cur_size h.array
