-- ===== src/HeapTimer/Pop.antt =====
-- min_heap_timer.h: `pop_timer` takes the timer that expires first, and `tick` all that have expired.
use linux_socket_test.Prelude.{
  ℕ, zero, suc, ◌+◌, ◌-◌, ◌≤◌, ◌<◌, ◌≡◌, refl, sym, ap, ◌∙◌, Option, none, some, arith, length, set,
  get_or-set_self, Option-cases, inl, inr, length-set,
}
use linux_socket_test.HeapTimer.{
  HeapTimer, Cells, TimeHeap, cell, parent, store, percolate_loop, percolate_down, pop_timer, top,
}
use linux_socket_test.HeapTimer.Order.{
  time, key, IsHeapFrom, IsHeap, total, total-set, total_next, key-set, filled-set,
}
use linux_socket_test.HeapTimer.Down.{DownInv, percolate_down-Places}
use native.Mathlib.Decide.{ℕ_discrete}

root_least :
    (fuel : ℕ) (a : Cells) (n i : ℕ) → IsHeapFrom 0 a n → i < fuel → i < n → key a 0 ≤ key a i
root_least zero a n i h f k = absurd (omega arith)
root_least (suc fuel) a n i h f k = elim (ℕ_discrete i 0) [
  | yes e ↦ rw e (omega arith)
  | no ne ↦
      let ih = root_least fuel a n (parent i) h (omega arith) (omega arith) in
      let edge = h.edges i (omega arith) k (omega arith) in omega arith
]

-- What is left when the last timer takes the place of the first.
record Popped (h : TimeHeap) (t : HeapTimer) (result : Option Cells) : Type 0 where
  pub cells : Cells
  pub returned : result ≡ some cells
  pub size : length cells ≡ length h.array
  pub order : IsHeapFrom 0 cells (h.cur_size - 1)
  pub same :
      (f : Option HeapTimer → ℕ)
      → total f (h.cur_size - 1) cells + f (some t) ≡ total f h.cur_size h.array

last_only :
    (h : TimeHeap) (t : HeapTimer)
    → IsHeap h
    → cell h.array 0 ≡ some t
    → h.cur_size ≡ 1
    → Popped h t (percolate_down (set h.array 0 (cell h.array (h.cur_size - 1))) (h.cur_size - 1) 0)
unfolding percolate_down percolate_loop store total
last_only h t v e one =
    let n : h.cur_size - 1 ≡ 0 = omega arith in
    let a = set h.array 0 (cell h.array 0) in
    let size : length a ≡ length h.array = length-set h.array 0 (cell h.array 0) in
    let k : 0 < length a = omega (arith, size, v.order.room, one) in
    rw n (record {
      cells = set a 0 (cell a 0);
      returned = ground (arith, k);
      size = length-set a 0 (cell a 0) ∙ size;
      order = rw n (record {
        room = omega arith;
        filled = λ i l. absurd (omega arith);
        edges = λ c p q r. absurd (omega arith);
      });
      same = λ f.
          let whole : total f h.cur_size h.array ≡ f (some t) + 0 =
            ap (λ m. total f m h.array) one ∙ ap (λ x. f x + 0) e in
          rw n (omega (arith, whole));
    })

refilled :
    (h : TimeHeap) (t : HeapTimer)
    → IsHeap h
    → cell h.array 0 ≡ some t
    → 1 < h.cur_size
    → Popped h t (percolate_down (set h.array 0 (cell h.array (h.cur_size - 1))) (h.cur_size - 1) 0)
refilled h t v e many =
    let n = h.cur_size - 1 in
    elim (Option-cases (cell h.array n)) [
      | inl none_there ↦ absurd (v.order.filled n (omega arith) none_there)
      | inr (last, el) ↦
          let k : 0 < length h.array = omega (arith, v.order.room) in
          let a = set h.array 0 (some last) in
          let at = λ (i : ℕ). key-set h.array 0 i (some last) k in
          let inv : DownInv 0 a n 0 last = record {
            inside = omega arith;
            room = omega (arith, length-set h.array 0 (some last), v.order.room);
            filled = λ i l m. filled-set h.array 0 i last k (λ _. v.order.filled i (omega arith));
            edges = λ c p q r x y. ground (arith, at c, at (parent c), v.order.edges c);
            above = λ p q. absurd (omega arith);
            bridged = λ c p q r x y. absurd (omega arith);
          } in
          let there : cell a 0 ≡ some last = get_or-set_self h.array 0 (some last) none k in
          let p = percolate_down-Places 0 a n 0 last there inv in
          rw el (record {
            cells = p.cells;
            returned = p.returned;
            size = p.size ∙ length-set h.array 0 (some last);
            order = p.order;
            same = λ f.
                let whole = total_next f n h.array in
                let count : n + 1 ≡ h.cur_size = omega arith in
                let whole' : total f h.cur_size h.array ≡ f (some last) + total f n h.array =
                  ap (λ m. total f m h.array) (sym count)
                  ∙ whole
                  ∙ ap (λ x. f x + total f n h.array) el in
                let w : f (cell h.array 0) ≡ f (some t) = ap f e in
                omega
                  (arith, p.same f, whole', w, total-set f n h.array 0 (some last) (omega arith) k);
          })
    ]

refill :
    (h : TimeHeap) (t : HeapTimer)
    → IsHeap h
    → cell h.array 0 ≡ some t
    → 0 < h.cur_size
    → Popped h t (percolate_down (set h.array 0 (cell h.array (h.cur_size - 1))) (h.cur_size - 1) 0)
refill h t v e some_left = elim (ℕ_discrete h.cur_size 1) [
  | yes one ↦ last_only h t v e one
  | no more ↦ refilled h t v e (omega arith)
]

-- From a heap with timers `pop_timer` takes the one on top, which expires no later than any other,
-- and leaves a heap of exactly the other timers.
pub pop_timer_removes :
    (h : TimeHeap)
    → IsHeap h
    → 0 < h.cur_size
    → (t : HeapTimer) × (g : TimeHeap) × (top h ≡ some t)
      × (pop_timer h ≡ some g)
      × IsHeap g
      × (g.cur_size + 1 ≡ h.cur_size)
      × (g.capacity ≡ h.capacity)
      × ((i : ℕ) → i < h.cur_size → t.expire ≤ key h.array i)
      × ((f : Option HeapTimer → ℕ)
          → total f g.cur_size g.array + f (some t) ≡ total f h.cur_size h.array)
unfolding top pop_timer
pop_timer_removes h v pos = elim (Option-cases (cell h.array 0)) [
  | inl e ↦ absurd (v.order.filled 0 pos e)
  | inr (t, e) ↦
      let p = refill h t v e pos in
      let kt : key h.array 0 ≡ t.expire = ap time e in
      (
        t,
        record { array = p.cells; capacity = h.capacity; cur_size = h.cur_size - 1 },
        ground (arith, e, pos),
        ground (arith, e, pos, p.returned),
        record { size = p.size ∙ v.size; order = p.order },
        omega arith,
        refl,
        λ i l. omega (arith, kt, root_least (i + 1) h.array h.cur_size i v.order (omega arith) l),
        p.same,
      )
]
