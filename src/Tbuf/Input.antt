-- ===== src/Tbuf/Input.antt =====
-- `readfd`: what arrives from the descriptor, spilling through `extrabuf` where needed.
use linux_socket_test.Prelude.{
  ℕ, ◌+◌, ◌-◌, ◌^◌, ◌≡◌, ap, ◌∙◌, List, ◌++◌, some, arith, length, take, drop, length-drop,
  length-take, ◌≤◌, copy_to, slice-copy_to, length-copy_to, take_ge, take-append-drop, append_assoc,
}
use native.Mathlib.Decide.{dec_le}
use linux_socket_test.Tbuf.{Tbuf, writeable_bytes, readfd, received, add_size}
use linux_socket_test.Tbuf.Laws.{IsValid, contents, append_stores}

-- What `readv` leaves behind the write position, taken as stored bytes.
filled-contents :
    (t : Tbuf) (s : List ℕ)
    → IsValid t
    → t.widx + length s ≤ length t.buf
    → let d = record t { buf = copy_to s t.buf t.widx; widx = t.widx + length s } in
      IsValid d × (contents d ≡ contents t ++ s)
filled-contents t s v h =
    ground (
      arith,
      slice-copy_to t.buf s t.ridx t.widx,
      length-copy_to s t.buf t.widx,
      v.small,
      v.ordered,
    )

-- `readfd` on a valid buffer stores all that `readv` received behind the stored bytes, in order,
-- whether it fits the storage or spills into `extrabuf`; it passes the assertions of `append` and
-- keeps the invariant.
pub readfd_stores :
    (t : Tbuf) (bs : List ℕ)
    → IsValid t
    → length t.buf + length bs ≤ 2 ^ 62
    → (d : Tbuf) × (readfd t (received bs) ≡ some d) × IsValid d × (contents d ≡ contents t ++ bs)
unfolding readfd
readfd_stores t bs v k = elim (dec_le (length bs) (writeable_bytes t)) [
  | yes h ↦
      let whole = take_ge (writeable_bytes t) bs h in
      let sum : add_size t.widx (length bs) ≡ t.widx + length bs = omega arith in
      let (valid, bytes) = filled-contents t bs v (omega arith) in
      (
        record t { buf = copy_to bs t.buf t.widx; widx = t.widx + length bs },
        ground (arith, whole, sum),
        valid,
        bytes,
      )
  | no h ↦
      let s = take (writeable_bytes t) bs in
      let n : length s ≡ length t.buf - t.widx =
        omega (arith, length-take (writeable_bytes t) bs) in
      let (valid, bytes) = filled-contents t s v (omega arith) in
      let size : length (copy_to s t.buf t.widx) ≡ t.widx + length s =
        omega (arith, length-copy_to s t.buf t.widx) in
      let spill = drop (writeable_bytes t) bs in
      let spilled : length spill ≡ length bs - writeable_bytes t =
        length-drop (writeable_bytes t) bs in
      let (d, e, stored, all) =
        append_stores (record t { buf = copy_to s t.buf t.widx; widx = t.widx + length s }) spill
          valid (omega arith) (omega arith) in
      (
        d,
        ground (arith, size, e),
        stored,
        all
            ∙ ap (λ l. l ++ spill) bytes
            ∙ append_assoc (contents t) s spill
            ∙ ap (λ l. contents t ++ l) (take-append-drop (writeable_bytes t) bs),
      )
]
