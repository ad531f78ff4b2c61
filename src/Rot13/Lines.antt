-- ===== src/Rot13/Lines.antt =====
-- libevent_test/low_level_rot13_server.cpp: what is stored of the bytes that arrive, and what
-- happens to a line and to the bytes behind it.
use linux_socket_test.Prelude.{
  ℕ, suc, ◌+◌, ◌≤◌, ◌<◌, ◌≡◌, refl, ap, ◌∙◌, List, [], ◌∷◌, ◌++◌, map, false, ◌==◌, if◌then◌else◌,
  arith, length, length-append, take, set, take-set, length-set, length-map, length-replicate, Free,
  append_assoc, append-nil,
}
use mathlib.Core.Path.{subst}
use linux_socket_test.Rot13.{
  FdState, max_line, alloc_fd_state, rot13_char, read_byte, read_bytes, CallEnd, do_write,
  finish_write, finished, aborted,
}

-- `rot13_char` undoes itself, on every byte, and a byte is a line end before it exactly if it is
-- one behind it.
pub rot13_char_involutive :
    (c : ℕ) → (rot13_char (rot13_char c) ≡ c) × ((rot13_char c ≡ b'\n') → c ≡ b'\n')
unfolding rot13_char
rot13_char_involutive c = (ground arith, λ h. ground (arith, h))

-- Where the last line ends after some bytes.
abbrev pub upto_after : ℕ → ℕ → List ℕ → ℕ
upto_after used upto [] = upto
upto_after used upto (b ∷ bs) = upto_after (used + 1) (if b == b'\n' then used + 1 else upto) bs

-- The state has stored these bytes, and knows where the last line ends.
pub record Holds (s : FdState) (xs : List ℕ) (upto : ℕ) : Type 0 where
  pub size : length s.buffer ≡ max_line
  pub used : s.buffer_used ≡ length xs
  pub stored : take s.buffer_used s.buffer ≡ xs
  pub line : s.write_upto ≡ upto

read_byte-Holds :
    (s : FdState) (xs : List ℕ) (upto b : ℕ)
    → Holds s xs upto
    → length xs < max_line
    → Holds (read_byte s b) (xs ++ rot13_char b ∷ []) (if b == b'\n' then length xs + 1 else upto)
unfolding read_byte
read_byte-Holds s xs upto b h k =
    let u = s.buffer_used in
    let c = rot13_char b in
    let room : u < length s.buffer = omega (arith, h.size, h.used) in
    let buffer : (read_byte s b).buffer ≡ set s.buffer u c = ground (arith, room) in
    let next : (read_byte s b).buffer_used ≡ suc u = ground (arith, room) in
    record {
      size = ap length buffer ∙ length-set s.buffer u c ∙ h.size;
      used = next ∙ omega (arith, h.used, length-append xs (c ∷ []));
      stored = rw (buffer, next) (take-set u s.buffer c room ∙ ap (λ l. l ++ c ∷ []) h.stored);
      line = ground (arith, room, h.line, h.used);
    }

read_byte-n_written : (s : FdState) (b : ℕ) → (read_byte s b).n_written ≡ s.n_written
unfolding read_byte
read_byte-n_written s b = ground arith

-- As long as the buffer has room, reading stores the rot13 of all bytes behind what is stored, in
-- order, and remembers the end of the last line among them.
pub read_bytes_stores :
    (s : FdState) (xs : List ℕ) (upto : ℕ) (bs : List ℕ)
    → Holds s xs upto
    → length xs + length bs ≤ max_line
    → Holds (read_bytes s bs) (xs ++ map rot13_char bs) (upto_after (length xs) upto bs)
      × ((read_bytes s bs).n_written ≡ s.n_written)
unfolding read_bytes
read_bytes_stores s xs upto [] h k = rw (append-nil xs) (h, refl)
read_bytes_stores s xs upto (b ∷ bs) h k =
    let first = read_byte-Holds s xs upto b h (omega arith) in
    let c = rot13_char b in
    let n : length (xs ++ c ∷ []) ≡ length xs + 1 = length-append xs (c ∷ []) in
    let line = if b == b'\n' then length xs + 1 else upto in
    let (rest, written) =
      read_bytes_stores (read_byte s b) (xs ++ c ∷ []) line bs first (omega arith) in
    (
      subst (λ l. Holds (read_bytes (read_byte s b) bs) l (upto_after (length xs + 1) line bs))
          (append_assoc xs (c ∷ []) (map rot13_char bs))
          (subst
            (λ m.
              Holds (read_bytes (read_byte s b) bs) ((xs ++ c ∷ []) ++ map rot13_char bs)
                (upto_after m line bs))
            n rest),
      written ∙ read_byte-n_written s b,
    )

abbrev pub sum : List ℕ → ℕ
sum [] = 0
sum (n ∷ ns) = n + sum ns

-- `send` never takes nothing.
pub data ArePositive : List ℕ → Type 0 where
  none_left : ArePositive []
  one_more : (n : ℕ) {ns : List ℕ} → 0 < n → ArePositive ns → ArePositive (n ∷ ns)

-- Once `send` has taken all bytes up to the last line end, in any number of calls, `do_write`
-- starts the state afresh if they were all the bytes there are, and otherwise fails its assertion.
pub do_write_finishes :
    (s : FdState) {ns : List ℕ} (e : CallEnd)
    → ArePositive ns
    → s.n_written + sum ns ≡ s.write_upto
    → do_write s ns e ≡ (
        if s.write_upto == s.buffer_used
        then finished (record s { n_written = 0; write_upto = 0; buffer_used = 0; writing = false })
        else aborted)
unfolding do_write finish_write
do_write_finishes s e none_left h = ground (arith, h)
do_write_finishes s e (one_more n {ns = ns} k rest) h =
    let ih =
      do_write_finishes (record s { n_written = s.n_written + n }) {ns = ns} e rest (omega arith) in
    ground (arith, k, ih, h)

upto_after-Free : (used upto : ℕ) (bs : List ℕ) → Free b'\n' bs → upto_after used upto bs ≡ upto
upto_after-Free used upto [] h = refl
upto_after-Free used upto (b ∷ bs) h =
    upto_after-Free (used + 1) (if b == b'\n' then used + 1 else upto) bs h.1 ∙ ground (arith, h.0)

upto_after-line :
    (used upto : ℕ) (line tail : List ℕ)
    → Free b'\n' tail
    → upto_after used upto (line ++ b'\n' ∷ tail) ≡ used + length line + 1
upto_after-line used upto [] tail h = upto_after-Free (used + 1) (used + 1) tail h ∙ omega arith
upto_after-line used upto (b ∷ line) tail h =
    upto_after-line (used + 1) (if b == b'\n' then used + 1 else upto) line tail h ∙ omega arith

pub alloc-Holds : Holds alloc_fd_state [] 0
unfolding alloc_fd_state
alloc-Holds = record {
  size = length-replicate {A = ℕ} max_line 0;
  used = refl;
  stored = refl;
  line = refl;
}

alloc-n_written : alloc_fd_state.n_written ≡ 0
unfolding alloc_fd_state
alloc-n_written = refl

-- A new connection reads bytes up to a line end and a tail without one, and `send` takes all bytes
-- up to the line end. If there is no tail, the connection is ready for the next line; if there is
-- one, because the peer has begun its next line, the server fails its assertion.
pub tail_aborts :
    (line tail ns : List ℕ) (e : CallEnd)
    → Free b'\n' tail
    → length line + 1 + length tail ≤ max_line
    → ArePositive ns
    → sum ns ≡ length line + 1
    → let s = read_bytes alloc_fd_state (line ++ b'\n' ∷ tail) in
      do_write s ns e ≡ (
        if length tail == 0
        then finished (record s { n_written = 0; write_upto = 0; buffer_used = 0; writing = false })
        else aborted)
tail_aborts line tail ns e h k p q =
    let bs = line ++ b'\n' ∷ tail in
    let n : length bs ≡ length line + 1 + length tail =
      omega (arith, length-append line (b'\n' ∷ tail)) in
    let fresh : alloc_fd_state.n_written ≡ 0 = alloc-n_written in
    let (held, written) = read_bytes_stores alloc_fd_state [] 0 bs alloc-Holds (omega arith) in
    let upto : (read_bytes alloc_fd_state bs).write_upto ≡ length line + 1 =
      held.line ∙ upto_after-line 0 0 line tail h ∙ omega arith in
    let used : (read_bytes alloc_fd_state bs).buffer_used ≡ length line + 1 + length tail =
      held.used ∙ length-map bs rot13_char ∙ n in
    do_write_finishes (read_bytes alloc_fd_state bs) {ns = ns} e p
      (omega (arith, written, fresh, upto, q))
    ∙ ground (arith, upto, used)
