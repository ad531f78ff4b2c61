-- ===== src/CircularBuffer/Drain.antt =====
-- `retrieve` and `read_int32` on a valid ring.
use linux_socket_test.Prelude.{
  ℕ, ◌+◌, ◌*◌, ◌≡◌, refl, ap, List, [], ◌∷◌, ◌++◌, none, some, arith, take, length-take,
  take-append-drop, sym, length, drop, ◌<◌, ◌≤◌,
}
use linux_socket_test.CircularBuffer.{CircularBuffer, pop, pop_n, read_n, retrieve, read_int32}
use linux_socket_test.CircularBuffer.Inv.{IsValid, contents, length-contents}
use linux_socket_test.CircularBuffer.Fifo.{pop_refines, poll}
use linux_socket_test.CircularBuffer.Grow.{Holds}

pop-Holds :
    {size x : ℕ} {q : List ℕ} (c : CircularBuffer)
    → Holds (x ∷ q) size c
    → ((pop c).0 ≡ 1) × ((pop c).1 ≡ some x) × Holds q size (pop c).2
unfolding poll
pop-Holds c h = ground (arith, pop_refines c h.valid)

pop_n-Holds :
    {size : ℕ} (xs q : List ℕ) (c : CircularBuffer)
    → Holds (xs ++ q) size c
    → (d : CircularBuffer) × (pop_n (length xs) c ≡ some d) × Holds q size d
unfolding pop_n
pop_n-Holds [] q c h = (c, refl, h)
pop_n-Holds (x ∷ xs) q c h =
    let (one, _, held) = pop-Holds c h in
    let (d, e, rest) = pop_n-Holds xs q (pop c).2 held in (d, ground (arith, one, e), rest)

read_n-Holds :
    {size : ℕ} (xs q : List ℕ) (c : CircularBuffer)
    → Holds (xs ++ q) size c
    → (d : CircularBuffer) × (read_n (length xs) c ≡ some (xs, d)) × Holds q size d
unfolding read_n
read_n-Holds [] q c h = (c, refl, h)
read_n-Holds (x ∷ xs) q c h =
    let (one, out, held) = pop-Holds c h in
    let (d, e, rest) = read_n-Holds xs q (pop c).2 held in (d, ground (arith, one, out, e), rest)

-- On a valid ring that stores at least `len` bytes `retrieve` passes its assertions, drops exactly
-- the oldest `len` bytes, and keeps the size of the storage and the invariant.
pub retrieve_drops :
    (c : CircularBuffer) (len : ℕ)
    → IsValid c
    → len ≤ length (contents c)
    → (d : CircularBuffer) × (retrieve c len ≡ some d)
      × (contents d ≡ drop len (contents c))
      × (length d.buffer ≡ length c.buffer)
      × IsValid d
unfolding retrieve
retrieve_drops c len v h =
    let front = take len (contents c) in
    let counts : length front ≡ len = omega (arith, length-take len (contents c)) in
    let held : Holds (front ++ drop len (contents c)) (length c.buffer) c = record {
      valid = v;
      bytes = sym (take-append-drop len (contents c));
      sized = refl;
    } in
    let (d, e, rest) = pop_n-Holds front (drop len (contents c)) c held in
    (d, ground (arith, length-contents c v, e, counts), rest.bytes, rest.sized, rest.valid)

-- Asked for more bytes than a valid ring stores, `retrieve` fails its assertion.
pub retrieve-none :
    (c : CircularBuffer) (len : ℕ) → IsValid c → length (contents c) < len → retrieve c len ≡ none
unfolding retrieve
retrieve-none c len v h = ground (arith, length-contents c v)

-- `read_int32` on a valid ring takes the oldest four bytes, reads them in network byte order, and
-- leaves the others.
pub read_int32_big_endian :
    (c : CircularBuffer) (b0 b1 b2 b3 : ℕ) (q : List ℕ)
    → IsValid c
    → contents c ≡ b0 ∷ b1 ∷ b2 ∷ b3 ∷ q
    → (d : CircularBuffer) × (read_int32 c ≡ some (((b0 * 256 + b1) * 256 + b2) * 256 + b3, d))
      × (contents d ≡ q)
      × IsValid d
unfolding read_int32
read_int32_big_endian c b0 b1 b2 b3 q v h =
    let bs = b0 ∷ b1 ∷ b2 ∷ b3 ∷ [] in
    let held : Holds (bs ++ q) (length c.buffer) c = record {
      valid = v;
      bytes = h;
      sized = refl;
    } in
    let (d, e, rest) = read_n-Holds bs q c held in
    (d, ground (arith, length-contents c v, ap length h, e), rest.bytes, rest.valid)
