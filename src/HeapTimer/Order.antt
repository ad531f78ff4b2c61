-- ===== src/HeapTimer/Order.antt =====
-- The order of the heap, and what its cells hold together.
use linux_socket_test.Prelude.{
  ℕ, zero, suc, ◌+◌, ◌≤◌, ◌<◌, ◌≡◌, ◌≢◌, refl, sym, ap, ap₂, Option, none, some, arith, ◌==◌,
  if◌then◌else◌, length, set, get_or-set_self, get_or-set_ne,
}
use linux_socket_test.HeapTimer.{HeapTimer, Cells, TimeHeap, cell, parent}
use native.Mathlib.Decide.{ℕ_discrete}

abbrev pub time : Option HeapTimer → ℕ
time none = 0
time (some t) = t.expire

abbrev pub key : Cells → ℕ → ℕ
key a i = time (cell a i)

-- The first `n` cells hold timers, and no timer whose parent is at `lo` or later expires before it.
pub record IsHeapFrom (lo : ℕ) (a : Cells) (n : ℕ) : Type 0 where
  pub room : n ≤ length a
  pub filled : (i : ℕ) → i < n → cell a i ≢ none
  pub edges : (c : ℕ) → 0 < c → c < n → lo ≤ parent c → key a (parent c) ≤ key a c

pub record IsHeap (h : TimeHeap) : Type 0 where
  pub size : length h.array ≡ h.capacity
  pub order : IsHeapFrom 0 h.array h.cur_size

-- The sum of a weight over the first `n` cells. Two arrays have the same sum for every weight if
-- and only if they hold the same timers, each as often.
unfoldable pub total : (Option HeapTimer → ℕ) → ℕ → Cells → ℕ
total f zero a = 0
total f (suc n) a = f (cell a n) + total f n a

pub total-cong :
    (f : Option HeapTimer → ℕ) (n : ℕ) (a b : Cells)
    → ((i : ℕ) → i < n → cell a i ≡ cell b i)
    → total f n a ≡ total f n b
unfolding total
total-cong f zero a b h = refl
total-cong f (suc n) a b h =
    ap₂ (λ x y. f x + y) (h n (omega arith)) (total-cong f n a b (λ i k. h i (omega arith)))

pub total_next :
    (f : Option HeapTimer → ℕ) (n : ℕ) (a : Cells) → total f (n + 1) a ≡ f (cell a n) + total f n a
unfolding total
total_next f n a = let e : n + 1 ≡ suc n = omega arith in ap (λ k. total f k a) e

-- Writing a cell replaces one weight by another.
pub total-set :
    (f : Option HeapTimer → ℕ) (n : ℕ) (a : Cells) (i : ℕ) (v : Option HeapTimer)
    → i < n
    → i < length a
    → total f n (set a i v) + f (cell a i) ≡ total f n a + f v
unfolding total
total-set f zero a i v h k = absurd (omega arith)
total-set f (suc n) a i v h k = elim (ℕ_discrete i n) [
  | yes e ↦
      let rest = total-cong f n (set a i v) a (λ j l. get_or-set_ne a i j v none (omega arith)) in
      rw (rest, sym e, get_or-set_self a i v none k) (omega arith)
  | no ne ↦
      let ih = total-set f n a i v (omega arith) k in
      rw (get_or-set_ne a i n v none ne) (omega (arith, ih))
]

-- Reading after a write inside the array.
pub cell-set :
    (a : Cells) (i j : ℕ) (v : Option HeapTimer)
    → i < length a
    → cell (set a i v) j ≡ (if i == j then v else cell a j)
cell-set a i j v h = elim (ℕ_discrete i j) [
  | yes e ↦ rw (sym e, get_or-set_self a i v none h) (ground arith)
  | no ne ↦ rw (get_or-set_ne a i j v none ne) (ground (arith, ne))
]

pub key-set :
    (a : Cells) (i j : ℕ) (v : Option HeapTimer)
    → i < length a
    → key (set a i v) j ≡ (if i == j then time v else key a j)
key-set a i j v h = rw (cell-set a i j v h) (ground arith)

pub some-none : {t : HeapTimer} → some t ≢ none
some-none p = ground (arith, p)

-- A store of a timer fills its cell and empties none.
pub filled-set :
    (a : Cells) (i j : ℕ) (t : HeapTimer)
    → i < length a
    → ((j ≢ i) → cell a j ≢ none)
    → cell (set a i (some t)) j ≢ none
filled-set a i j t h k = elim (ℕ_discrete i j) [
  | yes e ↦ rw (sym e, get_or-set_self a i (some t) none h) some-none
  | no ne ↦ rw (get_or-set_ne a i j (some t) none ne) (k (λ e. ne (sym e)))
]

-- What a loop that places a timer in a hole returns.
pub record Places (lo n : ℕ) (a : Cells) (old new : Option HeapTimer) (result : Option Cells)
    : Type 0 where
  pub cells : Cells
  pub returned : result ≡ some cells
  pub size : length cells ≡ length a
  pub order : IsHeapFrom lo cells n
  pub same : (f : Option HeapTimer → ℕ) → total f n cells + f old ≡ total f n a + f new

pub total-zero :
    (f : Option HeapTimer → ℕ) (n : ℕ) (a : Cells)
    → ((i : ℕ) → i < n → f (cell a i) ≡ 0)
    → total f n a ≡ 0
unfolding total
total-zero f zero a h = refl
total-zero f (suc n) a h =
    let ih = total-zero f n a (λ i k. h i (omega arith)) in
    let last = h n (omega arith) in omega arith

pub zero-total :
    (f : Option HeapTimer → ℕ) (n : ℕ) (a : Cells) (i : ℕ)
    → total f n a ≡ 0
    → i < n
    → f (cell a i) ≡ 0
unfolding total
zero-total f zero a i h k = absurd (omega arith)
zero-total f (suc n) a i h k = elim (ℕ_discrete i n) [
  | yes e ↦ rw e (omega arith)
  | no ne ↦ zero-total f n a i (omega arith) (omega arith)
]
