-- ===== src/HeapTimer/Tests.antt =====
-- Runs of the timer heap, and its theorems at a heap of two timers.
use linux_socket_test.Prelude.{
  ℕ, zero, suc, ◌+◌, ◌≤◌, ◌<◌, ◌≡◌, ◌≢◌, refl, [], ◌∷◌, Option, none, some, true, arith,
}
use linux_socket_test.HeapTimer.{
  HeapTimer, new_from, store, add_timer, del_timer, silence, tick, pop_timer, percolate_down,
  percolate_loop, smaller_child, heapify,
}
use linux_socket_test.HeapTimer.{Cells, TimeHeap, cell, parent}
use linux_socket_test.HeapTimer.Order.{key, IsHeap, total}
use linux_socket_test.HeapTimer.Add.{add_timer_keeps}

abbrev timer_at : ℕ → ℕ → HeapTimer
timer_at expire user_data = record { expire = expire; has_callback = true; user_data = user_data }

fires_in_order :
    (elim (new_from (some (timer_at 30 1) ∷ some (timer_at 20 2) ∷ some (timer_at 10 3) ∷ []) 4) [
      | none ↦ none
      | some h ↦ elim (tick 4 25 h) [ none ↦ none | some (fired, left) ↦ some fired ]
    ])
    ≡ some (3 ∷ 2 ∷ [])
unfolding new_from heapify percolate_down percolate_loop smaller_child store tick pop_timer
fires_in_order = refl

abbrev two_cells : Cells
two_cells = some (timer_at 10 1) ∷ some (timer_at 20 2) ∷ []

abbrev two : TimeHeap
two = record { array = two_cells; capacity = 2; cur_size = 2 }

two-filled : (i : ℕ) → i < 2 → cell two_cells i ≢ none
two-filled zero h = λ p. ground (arith, p)
two-filled (suc zero) h = λ p. ground (arith, p)
two-filled (suc (suc i)) h = absurd (omega arith)

two-edges : (c : ℕ) → 0 < c → c < 2 → 0 ≤ parent c → key two_cells (parent c) ≤ key two_cells c
two-edges zero p q r = absurd (omega arith)
two-edges (suc zero) p q r = omega arith
two-edges (suc (suc c)) p q r = absurd (omega arith)

two-IsHeap : IsHeap two
two-IsHeap = record {
  size = refl;
  order = record { room = omega arith; filled = two-filled; edges = two-edges };
}

no_cells-IsHeap : IsHeap (record { array = []; capacity = 0; cur_size = 0 })
no_cells-IsHeap = record {
  size = refl;
  order = record {
    room = omega arith;
    filled = λ i l. absurd (omega arith);
    edges = λ c p q r. absurd (omega arith);
  };
}

deleted_is_silent :
    (elim (tick 3 25 (del_timer two (some 1))) [ none ↦ none | some (fired, left) ↦ some fired ])
    ≡ some (2 ∷ [])
unfolding del_timer silence tick pop_timer percolate_down percolate_loop store
deleted_is_silent = refl

add_timer_keeps_example :
    (g : TimeHeap) × (add_timer two (some (timer_at 5 3)) ≡ some g)
    × IsHeap g
    × (g.cur_size ≡ 2 + 1)
    × ((f : Option HeapTimer → ℕ)
        → total f g.cur_size g.array ≡ total f 2 two_cells + f (some (timer_at 5 3)))
add_timer_keeps_example = add_timer_keeps two (timer_at 5 3) two-IsHeap (omega arith) (omega arith)
