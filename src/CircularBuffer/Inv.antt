-- ===== src/CircularBuffer/Inv.antt =====
-- The invariant of CircularBuffer, the bytes that it holds, and what keeps the invariant.
use linux_socket_test.Prelude.{
  ℕ, ◌+◌, ◌-◌, ◌^◌, ◌≤◌, ◌<◌, ◌≡◌, List, ◌++◌, arith, leb, if◌then◌else◌, length, take, drop,
  length-take, length-drop, length-append,
}
use linux_socket_test.CircularBuffer.{CircularBuffer, pop, writeable_bytes}

-- One slot stays free, and both indices lie in the storage.
pub record IsValid (c : CircularBuffer) : Type 0 where
  pub small : length c.buffer ≤ 2 ^ 62
  pub read_in : c.read_idx < length c.buffer
  pub write_in : c.write_idx < length c.buffer
  pub counted : c.readable_bytes ≡ (
      if leb c.read_idx c.write_idx
      then c.write_idx - c.read_idx
      else length c.buffer - c.read_idx + c.write_idx)

-- The stored bytes, oldest first.
abbrev pub contents : CircularBuffer → List ℕ
contents c =
    if leb c.read_idx c.write_idx
    then take (c.write_idx - c.read_idx) (drop c.read_idx c.buffer)
    else drop c.read_idx c.buffer ++ take c.write_idx c.buffer

pub writeable_bytes-add-readable :
    (c : CircularBuffer) → IsValid c → writeable_bytes c + c.readable_bytes + 1 ≡ length c.buffer
unfolding writeable_bytes
writeable_bytes-add-readable c v = ground arith

-- The counter agrees with the indices.
pub length-contents : (c : CircularBuffer) → IsValid c → length (contents c) ≡ c.readable_bytes
length-contents c v = ground (
  arith,
  length-take (c.write_idx - c.read_idx) (drop c.read_idx c.buffer),
  length-drop c.read_idx c.buffer,
  length-take c.write_idx c.buffer,
  length-append (drop c.read_idx c.buffer) (take c.write_idx c.buffer),
)

pub pop-IsValid : (c : CircularBuffer) → IsValid c → IsValid (pop c).2
unfolding pop
pop-IsValid c v = ground arith
