-- ===== src/HeapTimer/Add.antt =====
-- min_heap_timer.h, `add_timer`: the timer rises from the end of the heap to its place.
use linux_socket_test.Prelude.{
  ℕ, zero, suc, ◌+◌, ◌*◌, ◌-◌, ◌≤◌, ◌<◌, ◌^◌, ◌≡◌, ◌≢◌, refl, ap, ◌∙◌, [], ◌∷◌, ◌++◌, Option, none,
  some, arith, length, set, get_or-set_ne, Option-cases, inl, inr, length-set, take, replicate,
  length-append, length-take, length-replicate,
}
use linux_socket_test.HeapTimer.{
  HeapTimer, Cells, TimeHeap, cell, parent, store, percolate_up, resize, make_room, add_timer,
}
use linux_socket_test.HeapTimer.Order.{
  time, key, IsHeapFrom, IsHeap, total, total-cong, total-set, total_next, key-set, filled-set,
  Places,
}
use native.Mathlib.Decide.{dec_le, dec_lt}

-- With the timer in the hole, only the edge above the hole may be out of order.
record UpInv (a : Cells) (n hole : ℕ) (timer : HeapTimer) : Type 0 where
  pub inside : hole < n
  pub room : n ≤ length a
  pub filled : (i : ℕ) → i < n → i ≢ hole → cell a i ≢ none
  pub edges : (c : ℕ) → 0 < c → c < n → c ≢ hole → parent c ≢ hole → key a (parent c) ≤ key a c
  pub below : (c : ℕ) → 0 < c → c < n → parent c ≡ hole → timer.expire ≤ key a c
  pub bridged : (c : ℕ) → 0 < c → c < n → parent c ≡ hole → 0 < hole → key a (parent hole) ≤ key a c

-- The timer stays in the hole.
settled :
    (a : Cells) (n hole : ℕ) (timer : HeapTimer)
    → UpInv a n hole timer
    → ((0 < hole) → key a (parent hole) ≤ timer.expire)
    → IsHeapFrom 0 (set a hole (some timer)) n
settled a n hole timer v h =
    let k : hole < length a = omega (arith, v.inside, v.room) in
    let at = λ (i : ℕ). key-set a hole i (some timer) k in
    record {
      room = rw (length-set a hole (some timer)) v.room;
      filled = λ i l. filled-set a hole i timer k (v.filled i l);
      edges = λ c p q r. ground (arith, at c, at (parent c), v.edges c, v.below c, h);
    }

-- The parent sinks into the hole, and the hole rises.
rise :
    (a : Cells) (n hole : ℕ) (timer p : HeapTimer)
    → UpInv a n hole timer
    → 0 < hole
    → cell a (parent hole) ≡ some p
    → timer.expire < p.expire
    → UpInv (set a hole (some p)) n (parent hole) timer
rise a n hole timer p v pos e lt =
    let k : hole < length a = omega (arith, v.inside, v.room) in
    let at = λ (i : ℕ). key-set a hole i (some p) k in
    let kp : key a (parent hole) ≡ p.expire = ap time e in
    record {
      inside = omega (arith, v.inside);
      room = rw (length-set a hole (some p)) v.room;
      filled = λ i l m. filled-set a hole i p k (v.filled i l);
      edges = λ c q r s t. ground (arith, at c, at (parent c), v.edges c, v.bridged c, kp);
      below = λ c q r s. ground (arith, at c, v.edges c, kp, lt);
      bridged = λ c q r s t.
          ground (arith, at c, at (parent (parent hole)), v.edges c, v.edges (parent hole), kp);
    }

stored :
    (a : Cells) (n hole : ℕ) (timer : HeapTimer)
    → UpInv a n hole timer
    → ((0 < hole) → key a (parent hole) ≤ timer.expire)
    → Places 0 n a (cell a hole) (some timer) (store a hole (some timer))
unfolding store
stored a n hole timer v h =
    let k : hole < length a = omega (arith, v.inside, v.room) in
    record {
      cells = set a hole (some timer);
      returned = ground (arith, k);
      size = length-set a hole (some timer);
      order = settled a n hole timer v h;
      same = λ f. total-set f n a hole (some timer) v.inside k;
    }

percolate_up-Places :
    (fuel : ℕ) (a : Cells) (n hole : ℕ) (timer : HeapTimer)
    → hole < fuel
    → UpInv a n hole timer
    → Places 0 n a (cell a hole) (some timer) (percolate_up fuel a hole timer)
unfolding percolate_up store
percolate_up-Places zero a n hole timer h v = absurd (omega arith)
percolate_up-Places (suc fuel) a n hole timer h v = elim (dec_lt 0 hole) [
  | no root ↦
      let e : percolate_up (suc fuel) a hole timer ≡ store a hole (some timer) =
        ground (arith, root) in
      rw e (stored a n hole timer v (λ pos. absurd (root pos)))
  | yes pos ↦
      let above : parent hole < n = omega (arith, v.inside) in
      elim (Option-cases (cell a (parent hole))) [
        | inl e ↦ absurd (v.filled (parent hole) above (omega arith) e)
        | inr (p, e) ↦
            let kp : key a (parent hole) ≡ p.expire = ap time e in
            elim (dec_le p.expire timer.expire) [
              | yes le ↦
                  let r : percolate_up (suc fuel) a hole timer ≡ store a hole (some timer) =
                    ground (arith, pos, e, le) in
                  rw r (stored a n hole timer v (λ _. omega (arith, kp)))
              | no gt ↦
                  let k : hole < length a = omega (arith, v.inside, v.room) in
                  let b = set a hole (some p) in
                  let r : percolate_up (suc fuel) a hole timer
                      ≡ percolate_up fuel b (parent hole) timer =
                    ground (arith, pos, e, gt, k) in
                  let up = rise a n hole timer p v pos e (omega arith) in
                  let ih = percolate_up-Places fuel b n (parent hole) timer (omega arith) up in
                  let was : cell b (parent hole) ≡ some p =
                    get_or-set_ne a hole (parent hole) (some p) none (omega arith) ∙ e in
                  rw r (record {
                    cells = ih.cells;
                    returned = ih.returned;
                    size = ih.size ∙ length-set a hole (some p);
                    order = ih.order;
                    same = λ f.
                        let step = total-set f n a hole (some p) v.inside k in
                        let w : f (cell b (parent hole)) ≡ f (some p) = ap f was in
                        omega (arith, ih.same f, step, w);
                  })
            ]
      ]
]

cell-resized : (n i : ℕ) (a r : Cells) → i < n → i < length a → cell (take n a ++ r) i ≡ cell a i
cell-resized zero i a r h k = absurd (omega arith)
cell-resized (suc n) i [] r h k = absurd (omega arith)
cell-resized (suc n) zero (x ∷ a) r h k = refl
cell-resized (suc n) (suc i) (x ∷ a) r h k = cell-resized n i a r (omega arith) (omega arith)

record Roomy (h g : TimeHeap) : Type 0 where
  pub size : length g.array ≡ g.capacity
  pub space : h.cur_size < g.capacity
  pub same_size : g.cur_size ≡ h.cur_size
  pub cells : (i : ℕ) → i < h.cur_size → cell g.array i ≡ cell h.array i

make_room-Roomy :
    (h : TimeHeap)
    → IsHeap h
    → 0 < h.capacity
    → h.capacity < 2 ^ 30
    → (g : TimeHeap) × (make_room h ≡ some g) × Roomy h g
unfolding make_room resize
make_room-Roomy h v pos small = elim (dec_le h.capacity h.cur_size) [
  | yes full ↦
      let n = h.cur_size in
      let null : Option HeapTimer = none in
      let fresh = replicate (2 * h.capacity - n) null in
      (
        record h { array = take n h.array ++ fresh; capacity = 2 * h.capacity },
        ground (arith, full, small),
        record {
          size = omega (
            arith,
            length-append (take n h.array) fresh,
            length-take n h.array,
            length-replicate (2 * h.capacity - n) null,
            v.order.room,
            v.size,
          );
          space = omega (arith, v.order.room, v.size);
          same_size = refl;
          cells = λ i l. cell-resized n i h.array fresh l (omega (arith, v.order.room));
        },
      )
  | no space ↦ (
    h,
    ground arith,
    record { size = v.size; space = omega arith; same_size = refl; cells = λ i l. refl },
  )
]

Roomy-UpInv :
    (h g : TimeHeap) (timer : HeapTimer)
    → IsHeap h
    → Roomy h g
    → UpInv g.array (h.cur_size + 1) h.cur_size timer
Roomy-UpInv h g timer v r = record {
  inside = omega arith;
  room = omega (arith, r.size, r.space);
  filled = λ i l m. rw (r.cells i (omega arith)) (v.order.filled i (omega arith));
  edges = λ c p q s t.
      rw (r.cells c (omega arith), r.cells (parent c) (omega arith))
        (v.order.edges c p (omega arith) (omega arith));
  below = λ c p q s. absurd (omega arith);
  bridged = λ c p q s t. absurd (omega arith);
}

-- Adding a timer to a heap of a capacity above 0 and below 2 ^ 30 succeeds, with or without a larger
-- array. It leaves a heap with one timer more: the timers it had and the new one, whatever is counted.
pub add_timer_keeps :
    (h : TimeHeap) (timer : HeapTimer)
    → IsHeap h
    → 0 < h.capacity
    → h.capacity < 2 ^ 30
    → (g : TimeHeap) × (add_timer h (some timer) ≡ some g)
      × IsHeap g
      × (g.cur_size ≡ h.cur_size + 1)
      × ((f : Option HeapTimer → ℕ)
          → total f g.cur_size g.array ≡ total f h.cur_size h.array + f (some timer))
unfolding add_timer
add_timer_keeps h timer v pos small =
    let (g, made, r) = make_room-Roomy h v pos small in
    let n = h.cur_size in
    let p =
      percolate_up-Places (n + 1) g.array (n + 1) n timer (omega arith)
        (Roomy-UpInv h g timer v r) in
    let loop : percolate_up (g.cur_size + 1) g.array g.cur_size timer ≡ some p.cells =
      rw r.same_size p.returned in
    (
      record { array = p.cells; capacity = g.capacity; cur_size = n + 1 },
      rw (made, add_timer) (rw loop (rw r.same_size refl)),
      record { size = p.size ∙ r.size; order = p.order },
      refl,
      λ f.
          let now = total_next f n g.array in
          let was = total-cong f n g.array h.array r.cells in omega (arith, p.same f, now, was),
    )
