-- ===== src/Rot13.antt =====
-- libevent_test/low_level_rot13_server.cpp: a server that sends back each line in rot13.
-- The results of `recv` and `send` are arguments of `do_read` and `do_write`.
pub mod Setup
pub mod Lines
mod Tests
mod SetupTests
use linux_socket_test.Prelude.{
  ℕ, ◌+◌, ◌-◌, List, [], ◌∷◌, Bool, true, false, leb, ltb, ◌==◌, ◌&&◌, ◌||◌, if◌then◌else◌, set,
  length, replicate,
}

-- `MAX_LINE`.
abbrev pub max_line : ℕ
max_line = 16384

-- The state of a connection; `writing` is whether its write event is added.
pub record FdState : Type 0 where
  pub buffer : List ℕ
  pub buffer_used : ℕ
  pub n_written : ℕ
  pub write_upto : ℕ
  pub writing : Bool

-- `char` is a byte; those of 128 and above are in no branch but the last, as they are when signed.
unfoldable pub rot13_char : ℕ → ℕ
rot13_char c =
    if (leb b'a' c && leb c b'm') || (leb b'A' c && leb c b'M')
    then c + 13
    else if (leb b'n' c && leb c b'z') || (leb b'N' c && leb c b'Z')
    then c - 13
    else c

-- The buffer that `malloc` leaves unset is written before it is read.
unfoldable pub alloc_fd_state : FdState
alloc_fd_state = record {
  buffer = replicate max_line 0;
  buffer_used = 0;
  n_written = 0;
  write_upto = 0;
  writing = false;
}

-- The body of the loop of `do_read` over the bytes of one `recv`.
unfoldable pub read_byte : FdState → ℕ → FdState
read_byte s b =
    let t =
      if ltb s.buffer_used (length s.buffer)
      then record s {
        buffer = set s.buffer s.buffer_used (rot13_char b);
        buffer_used = s.buffer_used + 1;
      }
      else s in
    if b == b'\n' then record t { writing = true; write_upto = t.buffer_used } else t

unfoldable pub read_bytes : FdState → List ℕ → FdState
read_bytes s [] = s
read_bytes s (b ∷ bs) = read_bytes (read_byte s b) bs

-- How a sequence of `recv` or `send` calls ends: the call would block, it fails, or the peer has
-- closed the connection.
pub data CallEnd : Type 0 where
  again failed closed : CallEnd

pub data ReadResult : Type 0 where
  open_state : FdState → ReadResult
  freed : ReadResult

-- `do_read`, where `recv` gives these bytes call by call and then ends.
unfoldable pub do_read : FdState → List (List ℕ) → CallEnd → ReadResult
do_read s [] again = open_state s
do_read s [] failed = freed
do_read s [] closed = freed
do_read s (bs ∷ calls) e = do_read (read_bytes s bs) calls e

pub data WriteResult : Type 0 where
  waiting : FdState → WriteResult
  finished : FdState → WriteResult
  write_freed : WriteResult
  aborted : WriteResult

-- What follows the loop of `do_write`.
unfoldable pub finish_write : FdState → WriteResult
finish_write s =
    if s.n_written == s.buffer_used
    then finished (record s { n_written = 0; write_upto = 0; buffer_used = 0; writing = false })
    else aborted

-- `do_write`, where `send` takes these numbers of bytes call by call and then ends. An assertion
-- that fails is `aborted`.
unfoldable pub do_write : FdState → List ℕ → CallEnd → WriteResult
do_write s [] e =
    if ltb s.n_written s.write_upto
    then elim e [ again ↦ waiting s | failed ↦ write_freed | closed ↦ aborted ]
    else finish_write s
do_write s (n ∷ ns) e =
    let rest = do_write (record s { n_written = s.n_written + n }) ns e in
    if ltb s.n_written s.write_upto then (if n == 0 then aborted else rest) else finish_write s
