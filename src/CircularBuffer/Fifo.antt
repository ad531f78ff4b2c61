-- ===== src/CircularBuffer/Fifo.antt =====
-- `push` and `pop` against a bounded first-in first-out queue.
use linux_socket_test.Prelude.{
  ℕ, suc, ◌+◌, ◌-◌, ◌≡◌, ◌≢◌, List, [], ◌∷◌, ◌++◌, Option, none, some, arith, ◌==◌, if◌then◌else◌,
  length, get_or, set, take, drop, length-set, length-drop, take-set, drop_cons, drop-set_lt,
  drop-set_ge, append-nil, append_assoc, ◌<◌, ◌≤◌, take_ge, drop_ge, take_cons,
}
use native.Mathlib.Decide.{dec_lt, ℕ_discrete}
use linux_socket_test.CircularBuffer.{CircularBuffer, push, pop}
use linux_socket_test.CircularBuffer.Inv.{
  IsValid, contents, length-contents, pop-IsValid, writeable_bytes-add-readable,
}

-- Writing behind a slice extends it by that byte.
slice-set :
    (xs : List ℕ) (r w x : ℕ)
    → r ≤ w
    → w < length xs
    → take (suc w - r) (drop r (set xs w x)) ≡ take (w - r) (drop r xs) ++ (x ∷ [])
slice-set xs r w x h k =
    let e : suc w - r ≡ suc (w - r) = omega arith in
    rw (e, drop-set_ge r w xs x h)
      (take-set (w - r) (drop r xs) x (omega (arith, length-drop r xs)))

module _ (c : CircularBuffer) (x : ℕ) (v : IsValid c) where
  open c use {buffer, read_idx, write_idx, readable_bytes}

  pub push-IsValid : IsValid (push c x).1
  unfolding push
  push-IsValid = ground (arith, length-set buffer write_idx x)

  -- `push` fails exactly when only the spare slot is left, and then changes nothing.
  push-full : readable_bytes + 1 ≡ length buffer → push c x ≡ (0, c)
  unfolding push
  push-full h = ground arith

  push-returns : readable_bytes + 1 < length buffer → (push c x).0 ≡ 1
  unfolding push
  push-returns h = ground arith

  push-contents :
      readable_bytes + 1 < length buffer → contents (push c x).1 ≡ contents c ++ (x ∷ [])
  unfolding push
  push-contents h = ground (
    arith,
    slice-set buffer read_idx write_idx x,
    take_ge (suc write_idx - read_idx) (drop read_idx (set buffer write_idx x)),
    length-drop read_idx (set buffer write_idx x),
    length-set buffer write_idx x,
    append-nil (drop read_idx (set buffer write_idx x)),
    drop-set_lt read_idx write_idx buffer x,
    take-set write_idx buffer x,
    append_assoc (drop read_idx buffer) (take write_idx buffer) (x ∷ []),
  )

  push-size : length (push c x).1.buffer ≡ length buffer
  unfolding push
  push-size = ground (arith, length-set buffer write_idx x)

  push-count : readable_bytes + 1 < length buffer → (push c x).1.readable_bytes ≡ readable_bytes + 1
  unfolding push
  push-count h = ground arith

-- The queue that a ring of `size` slots implements: it holds at most `size - 1` bytes.
unfoldable pub offer : ℕ → List ℕ → ℕ → ℕ × List ℕ
offer size q x = if length q + 1 == size then (0, q) else (1, q ++ x ∷ [])

unfoldable pub poll : List ℕ → ℕ × Option ℕ × List ℕ
poll [] = (0, none, [])
poll (x ∷ q) = (1, some x, q)

-- On a valid ring `push` answers as the bounded queue does, and leaves the ring holding the
-- queue's bytes; the storage keeps its size.
pub push_refines :
    (c : CircularBuffer) (x : ℕ)
    → IsValid c
    → let (n, c') = push c x in
      ((n, contents c') ≡ offer (length c.buffer) (contents c) x)
      × (length c'.buffer ≡ length c.buffer)
      × IsValid c'
unfolding offer
push_refines c x v = elim (dec_lt (c.readable_bytes + 1) (length c.buffer)) [
  | yes h ↦ ground (
    arith,
    push-returns c x v h,
    push-contents c x v h,
    push-size c x v,
    push-IsValid c x v,
    length-contents c v,
  )
  | no h ↦ ground (
    arith,
    push-full c x v (omega (arith, writeable_bytes-add-readable c v)),
    length-contents c v,
  )
]

-- `pop` on a ring with at least one byte.
pop-contents :
    (c : CircularBuffer)
    → IsValid c
    → c.read_idx ≢ c.write_idx
    → contents c ≡ get_or c.buffer c.read_idx 0 ∷ contents (pop c).2
unfolding pop
pop-contents c v h = ground (
  arith,
  drop_cons c.read_idx c.buffer 0 v.read_in,
  take_cons (c.write_idx - c.read_idx) (get_or c.buffer c.read_idx 0)
      (drop (suc c.read_idx) c.buffer),
  drop_ge (suc c.read_idx) c.buffer,
)

pop-empty : (c : CircularBuffer) → IsValid c → c.read_idx ≡ c.write_idx → contents c ≡ []
pop-empty c v h = ground arith

-- On a valid ring `pop` answers as the queue does, hands out its oldest byte, and leaves the ring
-- holding the rest; the storage keeps its size.
pub pop_refines :
    (c : CircularBuffer)
    → IsValid c
    → let (n, out, c') = pop c in
      ((n, out, contents c') ≡ poll (contents c))
      × (length c'.buffer ≡ length c.buffer)
      × IsValid c'
unfolding pop poll
pop_refines c v = elim (ℕ_discrete c.read_idx c.write_idx) [
  | yes h ↦ ground (arith, pop-empty c v h)
  | no h ↦ ground (arith, pop-contents c v h, pop-IsValid c v)
]
