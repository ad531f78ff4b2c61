-- ===== src/CircularBuffer/Grow.antt =====
-- `push_str`, `readfd`, `retrieve` and `read_int32` on a valid ring.
use linux_socket_test.Prelude.{
  ℕ, ◌+◌, ◌-◌, ◌^◌, ◌≡◌, refl, ◌∙◌, ap, ap₂, List, [], ◌∷◌, ◌++◌, some, arith, leb, ltb,
  if◌then◌else◌, length, take, drop, length-drop, length-take, append-nil, append_assoc, ◌<◌, ◌≤◌,
  copy_to, length-copy_to, take-copy_to_twice, replicate, length-append, length-replicate,
  drop-append_le, take-append_le,
}
use native.Mathlib.Decide.{dec_lt}
use linux_socket_test.CircularBuffer.{
  CircularBuffer, push, push_all, grow, push_str, writeable_bytes, add_size, sub_size,
}
use linux_socket_test.CircularBuffer.Inv.{
  IsValid, contents, length-contents, writeable_bytes-add-readable,
}
use linux_socket_test.CircularBuffer.Fifo.{push_refines, offer}

-- A valid ring with these bytes and this size of storage.
pub record Holds (q : List ℕ) (size : ℕ) (c : CircularBuffer) : Type 0 where
  pub valid : IsValid c
  pub bytes : contents c ≡ q
  pub sized : length c.buffer ≡ size

module _ (c : CircularBuffer) (n : ℕ) (v : IsValid c) where
  open c use {buffer, read_idx, write_idx, readable_bytes}

  -- The size of the storage after growing, and the storage if the bytes wrapped round its end.
  grown_size : ℕ
  grown_size = readable_bytes + n + 1

  unrolled : List ℕ
  unfolding grown_size
  unrolled =
      copy_to (take write_idx buffer) (copy_to (drop read_idx buffer) (replicate grown_size 0) 0)
        (length buffer - read_idx)

  module _ (need : writeable_bytes c < n) (room : length buffer + n ≤ 2 ^ 62) where
    -- No `size_t` operation of `push_str` wraps.
    grow-unwrapped : grow c n ≡ (
        if ltb write_idx read_idx
        then record c {
          buffer = unrolled;
          write_idx = length buffer - read_idx + write_idx;
          read_idx = 0;
        }
        else record c { buffer = buffer ++ replicate (grown_size - length buffer) 0 })
    unfolding grow unrolled
    grow-unwrapped = rw (make, offset, finish)
      where
        offset : sub_size (length buffer) read_idx ≡ length buffer - read_idx
        offset = omega arith

        finish :
            add_size (length buffer - read_idx) write_idx ≡ length buffer - read_idx + write_idx
        finish = omega arith

        make : add_size (sub_size n (writeable_bytes c)) (length buffer) ≡ readable_bytes + n + 1
        make = omega (arith, writeable_bytes-add-readable c v)

    unrolled-length : write_idx < read_idx → length unrolled ≡ grown_size
    unfolding unrolled
    unrolled-length h = omega (
      arith,
      length-copy_to (take write_idx buffer)
          (copy_to (drop read_idx buffer) (replicate grown_size 0) 0) (length buffer - read_idx),
      length-copy_to (drop read_idx buffer) (replicate grown_size 0) 0,
      length-replicate {A = ℕ} grown_size 0,
      length-drop read_idx buffer,
      length-take write_idx buffer,
      writeable_bytes-add-readable c v,
      v.counted,
    )

    unrolled-contents :
        write_idx < read_idx
        → take (length buffer - read_idx + write_idx) unrolled
          ≡ drop read_idx buffer ++ take write_idx buffer
    unfolding unrolled
    unrolled-contents h =
        ap₂
          (λ a b. take (a + b) (
            copy_to (take write_idx buffer)
              (copy_to (drop read_idx buffer) (replicate grown_size 0) 0) a))
          front back
        ∙ take-copy_to_twice (take write_idx buffer) (drop read_idx buffer) (replicate grown_size 0)
      where
        front : length buffer - read_idx ≡ length (drop read_idx buffer)
        front = omega (arith, length-drop read_idx buffer)

        back : write_idx ≡ length (take write_idx buffer)
        back = omega (arith, length-take write_idx buffer)

    grow-Holds : Holds (contents c) (length (contents c) + n + 1) (grow c n)
    unfolding grown_size
    grow-Holds = elim (dec_lt write_idx read_idx) [
      | yes h ↦ ground (
        arith,
        grow-unwrapped,
        unrolled-length h,
        unrolled-contents h,
        length-contents c v,
        writeable_bytes-add-readable c v,
      )
      | no h ↦ ground (
        arith,
        grow-unwrapped,
        length-contents c v,
        writeable_bytes-add-readable c v,
        length-append buffer (replicate (grown_size - length buffer) 0),
        length-replicate {A = ℕ} (grown_size - length buffer) 0,
        drop-append_le read_idx buffer (replicate (grown_size - length buffer) 0),
        take-append_le (write_idx - read_idx) (drop read_idx buffer)
            (replicate (grown_size - length buffer) 0),
        length-drop read_idx buffer,
      )
    ]

push-Holds :
    {q : List ℕ} {size : ℕ} (c : CircularBuffer) (x : ℕ)
    → Holds q size c
    → length q + 1 < size
    → ((push c x).0 ≡ 1) × Holds (q ++ x ∷ []) size (push c x).1
unfolding offer
push-Holds c x h k = ground (arith, push_refines c x h.valid)

push_all-Holds :
    {size : ℕ} (xs q : List ℕ) (c : CircularBuffer)
    → Holds q size c
    → length q + length xs < size
    → (d : CircularBuffer) × (push_all c xs ≡ some d) × Holds (q ++ xs) size d
unfolding push_all
push_all-Holds [] q c h k = (c, refl, rw append-nil h)
push_all-Holds (x ∷ xs) q c h k =
    let (taken, held) = push-Holds c x h (omega arith) in
    let (d, e, rest) =
      push_all-Holds xs (q ++ x ∷ []) (push c x).1 held (omega (arith, length-append q (x ∷ []))) in
    (d, ground (arith, taken, e), rw (append_assoc q (x ∷ []) xs) at rest)

-- On a valid ring `push_str` always succeeds: it stores all the bytes behind the stored ones, in
-- order, and reports their number. The storage keeps its size if the bytes fit, and otherwise gets
-- the least size that holds them. (The sizes stay below 2 ^ 62, so no `size_t` sum wraps.)
pub push_str_appends :
    (c : CircularBuffer) (ele : List ℕ)
    → IsValid c
    → length c.buffer + length ele ≤ 2 ^ 62
    → (d : CircularBuffer) × (push_str c ele ≡ some (length ele, d))
      × (contents d ≡ contents c ++ ele)
      × (length d.buffer ≡ (
          if leb (length ele) (writeable_bytes c)
          then length c.buffer
          else length (contents c) + length ele + 1))
      × IsValid d
unfolding push_str
push_str_appends c ele v room = elim (dec_lt (writeable_bytes c) (length ele)) [
  | yes h ↦
      let g = grow-Holds c (length ele) v h room in
      let fits : length ele ≤ writeable_bytes (grow c (length ele)) = omega (
        arith,
        writeable_bytes-add-readable _ g.valid,
        length-contents _ g.valid,
        ap length g.bytes,
        g.sized,
      ) in
      let (d, e, held) = push_all-Holds ele (contents c) (grow c (length ele)) g (omega arith) in
      (d, ground (arith, e, fits), held.bytes, ground (arith, held.sized), held.valid)
  | no h ↦
      let g : Holds (contents c) (length c.buffer) c = record {
        valid = v;
        bytes = refl;
        sized = refl;
      } in
      let (d, e, held) =
        push_all-Holds ele (contents c) c g
          (omega (arith, writeable_bytes-add-readable c v, length-contents c v)) in
      (d, ground (arith, e), held.bytes, ground (arith, held.sized), held.valid)
]
