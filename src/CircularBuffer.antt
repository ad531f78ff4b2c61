-- ===== src/CircularBuffer.antt =====
-- circular_buffer/circular_buffer.h and circular_buffer.cpp: a byte ring that grows on demand.
-- A method returns the new object beside its result; `none` is an assertion that fails.
pub mod Inv
pub mod Fifo
pub mod Grow
pub mod Drain
mod Tests
use linux_socket_test.Prelude.{
  ℕ, zero, suc, ◌+◌, ◌-◌, ◌*◌, ◌%◌, ◌^◌, List, [], ◌∷◌, Option, none, some, leb, ltb, ◌==◌,
  if◌then◌else◌, length, get_or, set, take, drop, replicate, copy_to, ◌++◌,
}

-- Bytes are only moved and assembled, so a byte is any number.
pub record CircularBuffer : Type 0 where
  pub buffer : List ℕ
  pub readable_bytes : ℕ
  pub read_idx : ℕ
  pub write_idx : ℕ

-- `size_t` arithmetic wraps at 2 ^ 64.
abbrev pub add_size : ℕ → ℕ → ℕ
add_size a b = (a + b) % 2 ^ 64

abbrev pub sub_size : ℕ → ℕ → ℕ
sub_size a b = (2 ^ 64 + a - b) % 2 ^ 64

abbrev pub init_size : ℕ
init_size = 1024

-- The constructor; `std::vector<char>(n)` holds n zero bytes.
unfoldable pub new : CircularBuffer
new = record { buffer = replicate init_size 0; readable_bytes = 0; read_idx = 0; write_idx = 0 }

-- The step that `push` and `pop` make with an index.
abbrev pub next_idx : CircularBuffer → ℕ → ℕ
next_idx c i = if leb (length c.buffer) (add_size i 1) then 0 else add_size i 1

unfoldable pub push : CircularBuffer → ℕ → ℕ × CircularBuffer
push c ele =
    let next = next_idx c c.write_idx in
    if next == c.read_idx then (0, c) else (
      1,
      record c {
        buffer = set c.buffer c.write_idx ele;
        write_idx = next;
        readable_bytes = add_size c.readable_bytes 1;
      },
    )

-- The middle component is what goes through `ele`, if `pop` writes it.
unfoldable pub pop : CircularBuffer → ℕ × Option ℕ × CircularBuffer
pop c = if c.read_idx == c.write_idx then (0, none, c) else (
  1,
  some (get_or c.buffer c.read_idx 0),
  record c { read_idx = next_idx c c.read_idx; readable_bytes = sub_size c.readable_bytes 1 },
)

unfoldable pub writeable_bytes : CircularBuffer → ℕ
writeable_bytes c = sub_size (sub_size (length c.buffer) c.readable_bytes) 1

-- The branch of `push_str` that makes room for `n` more bytes.
unfoldable pub grow : CircularBuffer → ℕ → CircularBuffer
unfolding writeable_bytes
grow c n =
    let old_buffer_size = length c.buffer in
    let make_size = add_size (sub_size n (writeable_bytes c)) old_buffer_size in
    if ltb c.write_idx c.read_idx
    then record c {
      buffer =
          copy_to (take c.write_idx c.buffer)
            (copy_to (drop c.read_idx c.buffer) (replicate make_size 0) 0)
            (sub_size old_buffer_size c.read_idx);
      write_idx = add_size (sub_size old_buffer_size c.read_idx) c.write_idx;
      read_idx = 0;
    }
    else record c { buffer = c.buffer ++ replicate (make_size - old_buffer_size) 0 }

-- The loop of `push_str`, which asserts that each byte is taken.
unfoldable pub push_all : CircularBuffer → List ℕ → Option CircularBuffer
unfolding push
push_all c [] = some c
push_all c (x ∷ xs) =
    let (rtn, c') = push c x in let rest = push_all c' xs in if rtn == 0 then none else rest

unfoldable pub push_str : CircularBuffer → List ℕ → Option (ℕ × CircularBuffer)
push_str c ele =
    let c' = if ltb (writeable_bytes c) (length ele) then grow c (length ele) else c in
    if ltb (writeable_bytes c') (length ele)
    then none
    else elim (push_all c' ele) [ none ↦ none | some d ↦ some (length ele, d) ]

-- The loop of `retrieve`: `len` pops that must succeed.
unfoldable pub pop_n : ℕ → CircularBuffer → Option CircularBuffer
unfolding pop
pop_n zero c = some c
pop_n (suc n) c =
    let (rtn, _, c') = pop c in let rest = pop_n n c' in if rtn == 0 then none else rest

unfoldable pub retrieve : CircularBuffer → ℕ → Option CircularBuffer
retrieve c len = if leb len c.readable_bytes then pop_n len c else none

-- The loop of `read_int32`: the popped bytes, in order.
unfoldable pub read_n : ℕ → CircularBuffer → Option (List ℕ × CircularBuffer)
unfolding pop
read_n zero c = some ([], c)
read_n (suc n) c =
    let (rtn, out, c') = pop c in
    let rest : Option (List ℕ × CircularBuffer) = elim (read_n n c') [
      | none ↦ none
      | some (bs, d) ↦ some (get_some out ∷ bs, d)
    ] in
    if rtn == 0 then none else rest
  where
    get_some : Option ℕ → ℕ
    get_some none = 0
    get_some (some b) = b

-- `ntohl` of four bytes in memory order, as the bit pattern of the `int32_t`.
abbrev pub ntohl : List ℕ → ℕ
ntohl bs = get_or bs 0 0 * 2 ^ 24 + get_or bs 1 0 * 2 ^ 16 + get_or bs 2 0 * 2 ^ 8 + get_or bs 3 0

unfoldable pub read_int32 : CircularBuffer → Option (ℕ × CircularBuffer)
read_int32 c =
    if ltb c.readable_bytes 4
    then none
    else elim (read_n 4 c) [ none ↦ none | some (bs, d) ↦ some (ntohl bs, d) ]

-- What `read` returns: an error, the end of the stream, or at most 65536 bytes.
pub data ReadResult : Type 0 where
  failed : ReadResult
  eof : ReadResult
  received : List ℕ → ReadResult

-- `readfd`, with the result of `read` as its argument; only received bytes touch the buffer.
unfoldable pub readfd : CircularBuffer → ReadResult → Option CircularBuffer
unfolding push_str
readfd c failed = some c
readfd c eof = some c
readfd c (received bs) = elim (push_str c bs) [ none ↦ none | some (_, d) ↦ some d ]
