-- ===== src/CircularBuffer/Tests.antt =====
-- Runs of CircularBuffer, after circular_buffer/circular_buffer_test.cpp, and its theorems at
-- concrete buffers.
use linux_socket_test.Prelude.{◌≡◌, refl, [], ◌∷◌, some, arith, length}
use linux_socket_test.CircularBuffer.{
  CircularBuffer, new, push, push_all, push_str, grow, readfd, eof,
}
use linux_socket_test.CircularBuffer.Inv.{IsValid, contents}
use linux_socket_test.CircularBuffer.Fifo.{push_refines, offer}

-- Three bytes that wrap round the end of six slots.
abbrev wrapped : CircularBuffer
wrapped = record {
  buffer = 9 ∷ 0 ∷ 0 ∷ 0 ∷ 7 ∷ 8 ∷ [];
  readable_bytes = 3;
  read_idx = 4;
  write_idx = 1;
}

-- A ring of five slots with four bytes, all its room.
abbrev packed : CircularBuffer
packed = record { buffer = 0 ∷ 0 ∷ 1 ∷ 0 ∷ 0 ∷ []; readable_bytes = 4; read_idx = 1; write_idx = 0 }

push_twice : (push (push new 1).1 1).1.readable_bytes ≡ 2
unfolding push new
push_twice = refl

wrapped_grows :
    push_str wrapped (1 ∷ 2 ∷ 3 ∷ [])
    ≡ some (
      3,
      record {
        buffer = 7 ∷ 8 ∷ 9 ∷ 1 ∷ 2 ∷ 3 ∷ 0 ∷ [];
        readable_bytes = 6;
        read_idx = 0;
        write_idx = 6;
      },
    )
unfolding push_str push_all grow
wrapped_grows = refl

nothing_read : readfd wrapped eof ≡ some wrapped
unfolding readfd
nothing_read = refl

wrapped-IsValid : IsValid wrapped
wrapped-IsValid = omega arith

push_refines_example :
    let (n, c) = push wrapped 5 in
    ((n, contents c) ≡ offer 6 (7 ∷ 8 ∷ 9 ∷ []) 5) × (length c.buffer ≡ 6) × IsValid c
push_refines_example = push_refines wrapped 5 wrapped-IsValid
