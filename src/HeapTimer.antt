-- ===== src/HeapTimer.antt =====
-- min_heap_timer.h: timers in an array that is a heap by the time at which they expire.
-- A cell of the array is a pointer, with `none` for the null pointer. `none` as a result is an
-- exception, an access outside the array or through the null pointer, or an `int` that overflows when
-- the array is enlarged. Indices are `int`s below the size of an array.
pub mod Order
pub mod Add
pub mod Down
pub mod Pop
pub mod Build
pub mod Tick
mod Tests
use linux_socket_test.Prelude.{
  ℕ, zero, suc, ◌+◌, ◌-◌, ◌*◌, ◌/◌, ◌^◌, ◌>>=◌, List, [], ◌∷◌, ◌++◌, Option, none, some, Bool, true,
  false, leb, ltb, ◌==◌, if◌then◌else◌, get_or, set, take, length, replicate, min,
}

-- `has_callback` is whether `cb_func` is set.
pub record HeapTimer : Type 0 where
  pub expire : ℕ
  pub has_callback : Bool
  pub user_data : ℕ

abbrev pub Cells : Type 0
Cells = List (Option HeapTimer)

pub record TimeHeap : Type 0 where
  pub array : Cells
  pub capacity : ℕ
  pub cur_size : ℕ

unfoldable pub new : ℕ → TimeHeap
new cap = record { array = replicate cap none; capacity = cap; cur_size = 0 }

abbrev pub cell : Cells → ℕ → Option HeapTimer
cell a i = get_or a i none

-- `array[i] = v`.
unfoldable pub store : Cells → ℕ → Option HeapTimer → Option Cells
store a i v = if ltb i (length a) then some (set a i v) else none

abbrev pub parent : ℕ → ℕ
parent hole = (hole - 1) / 2

-- The loop of `add_timer`, on fuel, and the store behind it.
unfoldable pub percolate_up : ℕ → Cells → ℕ → HeapTimer → Option Cells
percolate_up zero a hole timer = none
percolate_up (suc fuel) a hole timer =
    if ltb 0 hole
    then elim (cell a (parent hole)) [
      | none ↦ none
      | some p ↦
          if leb p.expire timer.expire
          then store a hole (some timer)
          else elim (store a hole (some p)) [
            | none ↦ none
            | some b ↦ percolate_up fuel b (parent hole) timer
          ]
    ]
    else store a hole (some timer)

-- `resize`: twice the capacity, which is an `int`, and the new cells null.
unfoldable pub resize : TimeHeap → Option TimeHeap
resize h =
    if leb (2 ^ 31) (2 * h.capacity)
    then none
    else some (record h {
      array = take h.cur_size h.array ++ replicate (2 * h.capacity - h.cur_size) none;
      capacity = 2 * h.capacity;
    })

unfoldable pub make_room : TimeHeap → Option TimeHeap
make_room h = if leb h.capacity h.cur_size then resize h else some h

unfoldable pub add_timer : TimeHeap → Option HeapTimer → Option TimeHeap
add_timer h none = some h
add_timer h (some timer) = make_room h >>= λ g.
    percolate_up (g.cur_size + 1) g.array g.cur_size timer >>= λ a.
    some (record g { array = a; cur_size = g.cur_size + 1 })

-- The timer is only told not to run its callback.
unfoldable pub silence : ℕ → Cells → Cells
silence user_data [] = []
silence user_data (none ∷ cs) = none ∷ silence user_data cs
silence user_data (some t ∷ cs) =
    (if t.user_data == user_data then some (record t { has_callback = false }) else some t)
    ∷ silence user_data cs

unfoldable pub del_timer : TimeHeap → Option ℕ → TimeHeap
del_timer h none = h
del_timer h (some user_data) = record h { array = silence user_data h.array }

unfoldable pub top : TimeHeap → Option HeapTimer
top h = if h.cur_size == 0 then none else cell h.array 0

-- The child that `percolate_down` looks at, in a heap of `n` timers.
unfoldable pub smaller_child : Cells → ℕ → ℕ → Option ℕ
smaller_child a n hole =
    let child = hole * 2 + 1 in
    if leb (child + 2) n
    then elim (cell a (child + 1)) [
      | none ↦ none
      | some r ↦ elim (cell a child) [
        | none ↦ none
        | some l ↦ some (if ltb r.expire l.expire then child + 1 else child)
      ]
    ]
    else some child

-- The loop of `percolate_down`, on fuel, and the store behind it.
unfoldable pub percolate_loop : ℕ → Cells → ℕ → ℕ → Option HeapTimer → Option Cells
percolate_loop zero a n hole temp = none
percolate_loop (suc fuel) a n hole temp =
    if leb (hole * 2 + 2) n
    then elim (smaller_child a n hole) [
      | none ↦ none
      | some child ↦ elim (cell a child) [
        | none ↦ none
        | some c ↦ elim temp [
          | none ↦ none
          | some t ↦
              if ltb c.expire t.expire
              then elim (store a hole (some c)) [
                | none ↦ none
                | some b ↦ percolate_loop fuel b n child (some t)
              ]
              else store a hole (some t)
        ]
      ]
    ]
    else store a hole temp

unfoldable pub percolate_down : Cells → ℕ → ℕ → Option Cells
percolate_down a n hole = percolate_loop (n + 1) a n hole (cell a hole)

-- The `for` of the second constructor counts down.
unfoldable pub heapify : ℕ → Cells → ℕ → Option Cells
heapify zero a n = some a
heapify (suc i) a n = elim (percolate_down a n i) [ none ↦ none | some b ↦ heapify i b n ]

-- The second constructor; the cells of `init_array` behind its length are not read.
unfoldable pub new_from : Cells → ℕ → Option TimeHeap
new_from init_array capacity =
    let size = length init_array in
    let a = init_array ++ replicate (capacity - size) none in
    if ltb capacity size
    then none
    else if size == 0
    then some (record { array = a; capacity = capacity; cur_size = 0 })
    else elim (heapify ((size - 1) / 2 + 1) a size) [
      | none ↦ none
      | some b ↦ some (record { array = b; capacity = capacity; cur_size = size })
    ]

unfoldable pub pop_timer : TimeHeap → Option TimeHeap
pop_timer h =
    let n = h.cur_size - 1 in
    if h.cur_size == 0 then some h else elim (cell h.array 0) [
      | none ↦ some h
      | some _ ↦ elim (percolate_down (set h.array 0 (cell h.array n)) n 0) [
        | none ↦ none
        | some a ↦ some (record h { array = a; cur_size = n })
      ]
    ]

-- `tick` at the time `cur`, on fuel for its loop: the callbacks it runs, and the heap it leaves.
-- It reads the first cell also when the heap is empty.
unfoldable pub tick : ℕ → ℕ → TimeHeap → Option (List ℕ × TimeHeap)
tick zero cur h = none
tick (suc fuel) cur h =
    if length h.array == 0
    then none
    else if h.cur_size == 0
    then some ([], h)
    else elim (cell h.array 0) [
      | none ↦ some ([], h)
      | some t ↦ if ltb cur t.expire then some ([], h) else elim (pop_timer h) [
        | none ↦ none
        | some g ↦ elim (tick fuel cur g) [
          | none ↦ none
          | some (fired, left) ↦
              some ((if t.has_callback then t.user_data ∷ fired else fired), left)
        ]
      ]
    ]
