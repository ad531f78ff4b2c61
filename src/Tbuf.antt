-- ===== src/Tbuf.antt =====
-- tbuf/tbuf.h: a growing byte buffer with a read and a write index.
-- A method returns the new object beside its result; `none` is an assertion that fails, or a read
-- outside the storage.
pub mod Laws
pub mod Input
mod Tests
use linux_socket_test.Prelude.{
  ℕ, ◌+◌, ◌-◌, ◌*◌, ◌%◌, ◌^◌, List, Option, none, some, leb, ltb, if◌then◌else◌, length, take, drop,
  get_or, replicate, copy_to, ◌++◌,
}

-- Bytes are only moved and assembled, so a byte is any number.
pub record Tbuf : Type 0 where
  pub ridx : ℕ
  pub widx : ℕ
  pub buf : List ℕ

abbrev pub add_size : ℕ → ℕ → ℕ
add_size a b = (a + b) % 2 ^ 64

abbrev pub sub_size : ℕ → ℕ → ℕ
sub_size a b = (2 ^ 64 + a - b) % 2 ^ 64

unfoldable pub new : Tbuf
new = record { ridx = 0; widx = 0; buf = replicate 1024 0 }

abbrev pub readable_bytes : Tbuf → ℕ
readable_bytes t = sub_size t.widx t.ridx

abbrev pub writeable_bytes : Tbuf → ℕ
writeable_bytes t = sub_size (length t.buf) t.widx

abbrev pub prependable_bytes : Tbuf → ℕ
prependable_bytes t = t.ridx

-- The branch of `append` that moves the stored bytes to the front of the storage.
unfoldable pub transfer : Tbuf → Tbuf
transfer t = record {
  ridx = 0;
  widx = readable_bytes t;
  buf = copy_to (take (t.widx - t.ridx) (drop t.ridx t.buf)) t.buf 0;
}

-- `buf_.resize(n)`: cuts the storage, or pads it with zero bytes.
unfoldable pub resize : Tbuf → ℕ → Tbuf
resize t n = record t { buf = take n t.buf ++ replicate (n - length t.buf) 0 }

-- The outer branch of `append`: room for `n` more bytes, if there is none.
unfoldable pub make_room : Tbuf → ℕ → Tbuf
make_room t n =
    if ltb (writeable_bytes t) n
    then (if leb n (add_size (writeable_bytes t) (prependable_bytes t))
        then transfer t
        else resize t (add_size t.widx n))
    else t

-- The two assertions are that the bytes fit, and that the write position is inside the storage.
unfoldable pub append : Tbuf → List ℕ → Option Tbuf
append t str =
    let t' = make_room t (length str) in
    if leb (length str) (writeable_bytes t')
    then (if ltb t'.widx (length t'.buf)
        then some
            (record t' { buf = copy_to str t'.buf t'.widx; widx = add_size t'.widx (length str) })
        else none)
    else none

unfoldable pub retrieve : Tbuf → ℕ → Option Tbuf
retrieve t len =
    if leb len (readable_bytes t)
    then (if ltb len (readable_bytes t)
        then some (record t { ridx = add_size t.ridx len })
        else some (record t { ridx = 0; widx = 0 }))
    else none

-- `ntohl` of the four bytes from the read position, as the bit pattern of the `int32_t`.
-- `memcpy` outside the storage is a fault.
unfoldable pub peek_int32 : Tbuf → Option ℕ
peek_int32 t =
    if leb (t.ridx + 4) (length t.buf)
    then some (
        get_or t.buf t.ridx 0 * 2 ^ 24
        + get_or t.buf (t.ridx + 1) 0 * 2 ^ 16
        + get_or t.buf (t.ridx + 2) 0 * 2 ^ 8
        + get_or t.buf (t.ridx + 3) 0)
    else none

unfoldable pub read_int32 : Tbuf → Option (ℕ × Tbuf)
read_int32 t = elim (peek_int32 t) [
  | none ↦ none
  | some rtn ↦ elim (retrieve t 4) [ none ↦ none | some t' ↦ some (rtn, t') ]
]

-- What `readv` returns: an error, or the bytes that it stored, none at the end of the stream.
pub data ReadvResult : Type 0 where
  failed : ReadvResult
  received : List ℕ → ReadvResult

-- `readfd`, with the result of `readv` as its argument: `readv` fills the storage behind the write
-- position first, and then `extrabuf`.
unfoldable pub readfd : Tbuf → ReadvResult → Option Tbuf
readfd t failed = some t
readfd t (received bs) =
    let writeable = writeable_bytes t in
    let filled = copy_to (take writeable bs) t.buf t.widx in
    if leb (length bs) writeable
    then some (record t { buf = filled; widx = add_size t.widx (length bs) })
    else append (record t { buf = filled; widx = length filled }) (drop writeable bs)
