-- ===== src/Tbuf/Laws.antt =====
-- The invariant of Tbuf, and `append`, `retrieve` and `read_int32` on the stored bytes.
use linux_socket_test.Prelude.{
  ℕ, ◌+◌, ◌-◌, ◌*◌, ◌^◌, ◌≡◌, refl, ap, sym, ◌∙◌, List, [], ◌∷◌, ◌++◌, none, some, arith, ltb,
  if◌then◌else◌, length, take, drop, length-drop, length-take, ◌<◌, ◌≤◌, get_or, drop-drop,
  replicate, copy_to, slice-copy_to, length-copy_to, length-append, length-replicate, take_ge,
  drop-append_le, take-append_le, take-length-append, drop-take, get_or-slice, drop_ge,
  take-append-drop,
}
use native.Mathlib.Decide.{dec_lt, dec_le}
use linux_socket_test.Tbuf.{
  Tbuf, add_size, writeable_bytes, transfer, resize, make_room, append, retrieve, peek_int32,
  read_int32,
}

pub record IsValid (t : Tbuf) : Type 0 where
  pub small : length t.buf ≤ 2 ^ 62
  pub ordered : t.ridx ≤ t.widx
  pub inside : t.widx ≤ length t.buf

-- The stored bytes, oldest first.
abbrev pub contents : Tbuf → List ℕ
contents t = take (t.widx - t.ridx) (drop t.ridx t.buf)

pub length-contents : (t : Tbuf) → IsValid t → length (contents t) ≡ t.widx - t.ridx
length-contents t v =
    omega (arith, length-take (t.widx - t.ridx) (drop t.ridx t.buf), length-drop t.ridx t.buf)

-- A valid buffer with the bytes of `t` and room for `n` more.
record Roomy (t : Tbuf) (n : ℕ) (u : Tbuf) : Type 0 where
  valid : IsValid u
  same : contents u ≡ contents t
  room : u.widx + n ≤ length u.buf

transfer-Roomy :
    (t : Tbuf) (n : ℕ) → IsValid t → n ≤ length t.buf - t.widx + t.ridx → Roomy t n (transfer t)
unfolding transfer
transfer-Roomy t n v h = ground (
  arith,
  length-contents t v,
  length-copy_to (contents t) t.buf 0,
  take-length-append (contents t) (drop (0 + length (contents t)) t.buf),
)

resize-Roomy :
    (t : Tbuf) (n : ℕ)
    → IsValid t
    → length t.buf < t.widx + n
    → t.widx + n ≤ 2 ^ 62
    → Roomy t n (resize t (t.widx + n))
unfolding resize
resize-Roomy t n v h k = ground (
  arith,
  take_ge (t.widx + n) t.buf,
  length-append t.buf (replicate (t.widx + n - length t.buf) 0),
  length-replicate {A = ℕ} (t.widx + n - length t.buf) 0,
  drop-append_le t.ridx t.buf (replicate (t.widx + n - length t.buf) 0),
  take-append_le (t.widx - t.ridx) (drop t.ridx t.buf) (replicate (t.widx + n - length t.buf) 0),
  length-drop t.ridx t.buf,
)

make_room-Roomy :
    (t : Tbuf) (n : ℕ) → IsValid t → length t.buf + n ≤ 2 ^ 62 → Roomy t n (make_room t n)
unfolding make_room
make_room-Roomy t n v k = elim (dec_le (t.widx + n) (length t.buf)) [
  | yes h ↦ ground arith
  | no h ↦ elim (dec_le n (length t.buf - t.widx + t.ridx)) [
    | yes p ↦ ground (arith, transfer-Roomy t n v p)
    | no p ↦
        let sum : add_size t.widx n ≡ t.widx + n = omega arith in
        rw sum (ground (arith, resize-Roomy t n v (omega arith) (omega arith)))
  ]
]

-- The last step of `append`: writing the bytes where there is room for them.
store-contents :
    (t u : Tbuf) (str : List ℕ)
    → Roomy t (length str) u
    → let d = record u { buf = copy_to str u.buf u.widx; widx = add_size u.widx (length str) } in
      IsValid d × (contents d ≡ contents t ++ str)
store-contents t u str r = ground (
  arith,
  r.valid,
  r.same,
  r.room,
  slice-copy_to u.buf str u.ridx u.widx,
  length-copy_to str u.buf u.widx,
)

-- On a valid buffer `append` of one or more bytes passes its assertions on every path (room at the
-- end, room after moving the bytes to the front, no room), stores all the bytes behind the stored
-- ones, in order, and keeps the invariant. (Sizes stay below 2 ^ 62, so no `size_t` sum wraps.)
pub append_stores :
    (t : Tbuf) (str : List ℕ)
    → IsValid t
    → length t.buf + length str ≤ 2 ^ 62
    → 0 < length str
    → (d : Tbuf) × (append t str ≡ some d) × IsValid d × (contents d ≡ contents t ++ str)
unfolding append
append_stores t str v k pos =
    let u = make_room t (length str) in
    let r = make_room-Roomy t (length str) v k in
    let stored = store-contents t u str r in
    let fits : length str ≤ writeable_bytes u =
      omega (arith, r.valid.small, r.room, r.valid.inside) in
    let inside : u.widx < length u.buf = omega (arith, r.room) in
    (
      record u { buf = copy_to str u.buf u.widx; widx = add_size u.widx (length str) },
      ground (arith, fits, inside),
      stored.0,
      stored.1,
    )

make_room-zero : (t : Tbuf) → IsValid t → make_room t 0 ≡ t
unfolding make_room
make_room-zero t v = ground arith

-- Appending no bytes to a valid buffer fails the assertion exactly when the write position is at
-- the end of the storage; otherwise it changes nothing.
pub append_nothing :
    (t : Tbuf) → IsValid t → append t [] ≡ (if ltb t.widx (length t.buf) then some t else none)
unfolding append
append_nothing t v =
    let sum : t.widx + 0 ≡ t.widx = omega arith in
    let same : copy_to [] t.buf t.widx ≡ t.buf =
      ap (λ k. take t.widx t.buf ++ drop k t.buf) sum ∙ take-append-drop t.widx t.buf in
    rw (make_room-zero t v) (ground (arith, same))

-- On a valid buffer `retrieve` drops the oldest `len` bytes and keeps the invariant; emptied, the
-- buffer starts again at the front. More bytes than are stored fail its assertion.
pub retrieve_consumes :
    (t : Tbuf) (len : ℕ)
    → IsValid t
    → len ≤ length (contents t)
    → (d : Tbuf) × (retrieve t len ≡ some d)
      × IsValid d
      × (contents d ≡ drop len (contents t))
      × (d.buf ≡ t.buf)
      × (d.ridx ≡ (if ltb len (length (contents t)) then t.ridx + len else 0))
unfolding retrieve
retrieve_consumes t len v h = elim (dec_lt len (length (contents t))) [
  | yes p ↦ (
    record t { ridx = add_size t.ridx len },
    ground (arith, length-contents t v),
    omega (arith, length-contents t v),
    ground (arith, length-contents t v, dropped),
    refl,
    ground (arith, length-contents t v),
  )
  | no p ↦ (
    record t { ridx = 0; widx = 0 },
    ground (arith, length-contents t v),
    omega arith,
    ground (arith, drop_ge len (contents t)),
    refl,
    ground (arith, length-contents t v),
  )
]
  where
    sum : add_size t.ridx len ≡ t.ridx + len
    sum = omega (arith, length-contents t v)

    dropped :
        take (t.widx - add_size t.ridx len) (drop (add_size t.ridx len) t.buf)
        ≡ drop len (contents t)
    dropped =
        let e : t.widx - (t.ridx + len) ≡ t.widx - t.ridx - len = omega arith in
        rw (sum, e)
          (sym (
            drop-take len (t.widx - t.ridx) (drop t.ridx t.buf) (omega (arith, length-contents t v))
            ∙ ap (take (t.widx - t.ridx - len)) (drop-drop len t.ridx t.buf)))

-- What `peek_int32` reads, when four bytes or more are stored.
peek_int32-some :
    (t : Tbuf) (b0 b1 b2 b3 : ℕ) (q : List ℕ)
    → IsValid t
    → contents t ≡ b0 ∷ b1 ∷ b2 ∷ b3 ∷ q
    → peek_int32 t ≡ some (((b0 * 256 + b1) * 256 + b2) * 256 + b3)
unfolding peek_int32
peek_int32-some t b0 b1 b2 b3 q v h =
    let n : 4 ≤ t.widx - t.ridx = omega (arith, length-contents t v, ap length h) in
    let at = λ (i : ℕ) (k : i < t.widx - t.ridx).
      get_or-slice (t.widx - t.ridx) t.ridx i t.buf 0 k ∙ ap (λ (l : List ℕ). get_or l i 0) h in
    let first : get_or t.buf t.ridx 0 ≡ b0 =
      let e : t.ridx ≡ t.ridx + 0 = omega arith in
      ap (λ k. get_or t.buf k 0) e ∙ at 0 (omega arith) in
    ground (arith, n, first, at 1 (omega arith), at 2 (omega arith), at 3 (omega arith))

-- `read_int32` on a valid buffer takes the oldest four bytes, reads them in network byte order, and
-- leaves the others.
pub read_int32_value :
    (t : Tbuf) (b0 b1 b2 b3 : ℕ) (q : List ℕ)
    → IsValid t
    → contents t ≡ b0 ∷ b1 ∷ b2 ∷ b3 ∷ q
    → (d : Tbuf) × (read_int32 t ≡ some (((b0 * 256 + b1) * 256 + b2) * 256 + b3, d))
      × IsValid d
      × (contents d ≡ q)
unfolding read_int32
read_int32_value t b0 b1 b2 b3 q v h =
    let (d, e, valid, bytes, _, _) = retrieve_consumes t 4 v (omega (arith, ap length h)) in
    (d, ground (arith, peek_int32-some t b0 b1 b2 b3 q v h, e), valid, bytes ∙ ap (drop 4) h)
