-- ===== src/HeapTimer/Build.antt =====
-- min_heap_timer.h, the second constructor: an array of timers is put in order from the end.
use linux_socket_test.Prelude.{
  ℕ, zero, suc, ◌+◌, ◌-◌, ◌/◌, ◌≤◌, ◌<◌, ◌≡◌, ◌≢◌, refl, ap, ◌∙◌, List, [], ◌∷◌, ◌++◌, Option, none,
  some, arith, length, replicate, length-append, length-replicate, Option-cases, inl, inr,
}
use linux_socket_test.HeapTimer.{HeapTimer, Cells, TimeHeap, cell, heapify, new_from}
use linux_socket_test.HeapTimer.Order.{IsHeapFrom, IsHeap, total, total-cong}
use linux_socket_test.HeapTimer.Down.{DownInv, percolate_down-Places}
use native.Mathlib.Decide.{ℕ_discrete}

record Built (n : ℕ) (a : Cells) (result : Option Cells) : Type 0 where
  pub cells : Cells
  pub returned : result ≡ some cells
  pub size : length cells ≡ length a
  pub order : IsHeapFrom 0 cells n
  pub same : (f : Option HeapTimer → ℕ) → total f n cells ≡ total f n a

-- Each round extends the part that is in order by one parent.
heapify-Built : (i : ℕ) (a : Cells) (n : ℕ) → i ≤ n → IsHeapFrom i a n → Built n a (heapify i a n)
unfolding heapify
heapify-Built zero a n h v = record {
  cells = a;
  returned = refl;
  size = refl;
  order = v;
  same = λ f. refl;
}
heapify-Built (suc i) a n h v = elim (Option-cases (cell a i)) [
  | inl e ↦ absurd (v.filled i (omega arith) e)
  | inr (t, e) ↦
      let inv : DownInv i a n i t = record {
        inside = omega arith;
        room = v.room;
        filled = λ j l m. v.filled j l;
        edges = λ c p q r x y. v.edges c p q (omega arith);
        above = λ p q. absurd (omega arith);
        bridged = λ c p q r x y. absurd (omega arith);
      } in
      let p = percolate_down-Places i a n i t e inv in
      let ih = heapify-Built i p.cells n (omega arith) p.order in
      rw (heapify, p.returned)
        (record {
          cells = ih.cells;
          returned = ih.returned;
          size = ih.size ∙ p.size;
          order = ih.order;
          same = λ f. omega (arith, ih.same f, p.same f);
        })
]

-- An `init_array` of timers, none of them null.
abbrev pub pointers : List HeapTimer → Cells
pointers [] = []
pointers (t ∷ ts) = some t ∷ pointers ts

length-pointers : (ts : List HeapTimer) → length (pointers ts) ≡ length ts
length-pointers [] = refl
length-pointers (t ∷ ts) = ap suc (length-pointers ts)

cell-append : (xs r : Cells) (i : ℕ) → i < length xs → cell (xs ++ r) i ≡ cell xs i
cell-append [] r i h = absurd (omega arith)
cell-append (x ∷ xs) r zero h = refl
cell-append (x ∷ xs) r (suc i) h = cell-append xs r i (omega arith)

cell-pointers : (ts : List HeapTimer) (i : ℕ) → i < length ts → cell (pointers ts) i ≢ none
cell-pointers [] i h = absurd (omega arith)
cell-pointers (t ∷ ts) zero h = λ p. ground (arith, p)
cell-pointers (t ∷ ts) (suc i) h = cell-pointers ts i (omega arith)

-- The new array before it is put in order.
filled_array : List HeapTimer → ℕ → Cells
filled_array ts capacity = pointers ts ++ replicate (capacity - length (pointers ts)) none

filled_array-Built :
    (ts : List HeapTimer) (capacity : ℕ)
    → length ts ≤ capacity
    → 0 < length ts
    → let n = length (pointers ts) in
      let a = filled_array ts capacity in
      Built n a (heapify ((n - 1) / 2 + 1) a n) × (length a ≡ capacity)
unfolding filled_array
filled_array-Built ts capacity fits pos =
    let n = length (pointers ts) in
    let null : Option HeapTimer = none in
    let rest = replicate (capacity - n) null in
    let count = length-pointers ts in
    let size : length (pointers ts ++ rest) ≡ capacity =
      omega
        (arith, count, length-append (pointers ts) rest, length-replicate (capacity - n) null) in
    (
      heapify-Built ((n - 1) / 2 + 1) (pointers ts ++ rest) n (omega (arith, count)) (record {
        room = omega (arith, count, size);
        filled = λ i l.
            rw (cell-append (pointers ts) rest i l) (cell-pointers ts i (omega (arith, count)));
        edges = λ c p q r. absurd (omega arith);
      }),
      size,
    )

-- Built from no more timers than the capacity, none of them null, the heap is in order and holds
-- exactly these timers.
pub new_from_orders :
    (ts : List HeapTimer) (capacity : ℕ)
    → length ts ≤ capacity
    → (h : TimeHeap) × (new_from (pointers ts) capacity ≡ some h)
      × IsHeap h
      × (h.cur_size ≡ length ts)
      × (h.capacity ≡ capacity)
      × ((f : Option HeapTimer → ℕ)
          → total f h.cur_size h.array ≡ total f (length ts) (pointers ts))
unfolding new_from filled_array total
new_from_orders ts capacity fits = elim (ℕ_discrete (length ts) 0) [
  | yes e ↦
      let null : Option HeapTimer = none in
      let count = length-pointers ts in
      let rest = replicate (capacity - length (pointers ts)) null in
      (
        record { array = filled_array ts capacity; capacity = capacity; cur_size = 0 },
        ground (arith, e, count),
        record {
          size = omega (
            arith,
            count,
            length-append (pointers ts) rest,
            length-replicate (capacity - length (pointers ts)) null,
          );
          order = record {
            room = omega arith;
            filled = λ i l. absurd (omega arith);
            edges = λ c p q r. absurd (omega arith);
          };
        },
        omega arith,
        refl,
        λ f. rw e refl,
      )
  | no ne ↦
      let count = length-pointers ts in
      let (b, size) = filled_array-Built ts capacity fits (omega arith) in
      (
        record { array = b.cells; capacity = capacity; cur_size = length (pointers ts) },
        ground (arith, ne, count, fits, b.returned),
        record { size = b.size ∙ size; order = b.order },
        count,
        refl,
        λ f.
            let null : Option HeapTimer = none in
            let rest = replicate (capacity - length (pointers ts)) null in
            b.same f
            ∙ total-cong f (length (pointers ts)) (pointers ts ++ rest) (pointers ts)
                (cell-append (pointers ts) rest)
            ∙ ap (λ k. total f k (pointers ts)) count,
      )
]

-- With more timers than the capacity the constructor throws.
new_from_throws :
    (ts : List HeapTimer) (capacity : ℕ)
    → capacity < length ts
    → new_from (pointers ts) capacity ≡ none
unfolding new_from
new_from_throws ts capacity over = ground (arith, over, length-pointers ts)
