-- ===== src/Ttcp/Turns.antt =====
-- ttcp/ttcp_libev.cpp: one turn of the loop in the callback, on the bytes of the buffer.
use linux_socket_test.Prelude.{
  ℕ, ◌+◌, ◌*◌, ◌/◌, ◌%◌, ◌^◌, ◌≤◌, ◌<◌, ◌≡◌, ap, ap₂, sym, ◌∙◌, List, ◌++◌, leb, some,
  if◌then◌else◌, arith, length, length-append, append_assoc, drop, drop-length-append,
}
use linux_socket_test.Tbuf.{Tbuf, readable_bytes, read_int32}
use linux_socket_test.Tbuf.Laws.{
  IsValid, contents, length-contents, retrieve_consumes, read_int32_value,
}
use linux_socket_test.Ttcp.Blocking.{max_buffer_length, htonl, total_len}
use linux_socket_test.Ttcp.Receiver.{length-htonl}
use linux_socket_test.Ttcp.Libev.{
  except_frame, EvClient, goes_on, leaves, deleted, frame_turn, frame_size_turn, is_wrong, stops,
}

pub readable_bytes-contents : (t : Tbuf) → IsValid t → readable_bytes t ≡ length (contents t)
readable_bytes-contents t v = omega (arith, length-contents t v, v.small, v.ordered, v.inside)

read_int32-htonl :
    (t : Tbuf) (n : ℕ) (q : List ℕ)
    → IsValid t
    → n < 2 ^ 32
    → contents t ≡ htonl n ++ q
    → (d : Tbuf) × (read_int32 t ≡ some (n, d)) × IsValid d × (contents d ≡ q)
unfolding htonl
read_int32-htonl t n q v small e =
    let (d, read, valid, rest) =
      read_int32_value t (n / 2 ^ 24 % 256) (n / 2 ^ 16 % 256) (n / 2 ^ 8 % 256) (n % 256) q v e in
    let value : ((n / 2 ^ 24 % 256 * 256 + n / 2 ^ 16 % 256) * 256 + n / 2 ^ 8 % 256) * 256
          + n % 256
        ≡ n =
      omega (arith, small) in
    (d, read ∙ ap (λ x. some (x, d)) value, valid, rest)

-- `d` is `c` behind a frame, with the buffer `b`.
abbrev pub behind : EvClient → ℕ → Tbuf → EvClient
behind c len b = record c {
  input_buffer = b;
  written = c.written ++ htonl len;
  read_number = c.read_number + 1;
}

pub frame_turn_takes :
    (c : EvClient) (payload q : List ℕ)
    → IsValid c.input_buffer
    → c.message_length ≤ max_buffer_length
    → length payload ≡ c.message_length
    → contents c.input_buffer ≡ (htonl c.message_length ++ payload) ++ q
    → (b : Tbuf) × (frame_turn c ≡ (
        if leb c.number (c.read_number + 1)
        then deleted (behind c c.message_length b)
        else goes_on (behind c c.message_length b)))
      × IsValid b
      × (contents b ≡ q)
unfolding frame_turn
frame_turn_takes c payload q v small size e =
    let len = c.message_length in
    let (b, number, valid, bytes) =
      read_int32-htonl c.input_buffer len (payload ++ q) v (omega (arith, small))
        (e ∙ append_assoc (htonl len) payload q) in
    let all = ap length bytes ∙ length-append payload q in
    let (b', skip, valid', bytes', _, _) =
      retrieve_consumes b len valid (omega (arith, all, size)) in
    let total =
      readable_bytes-contents c.input_buffer v
      ∙ ap length (e ∙ append_assoc (htonl len) payload q)
      ∙ length-append (htonl len) (payload ++ q) in
    let fits : total_len len ≤ readable_bytes c.input_buffer =
      omega (arith, total, length-append payload q, length-htonl len, size, small) in
    (
      b',
      ground (arith, number, skip, fits),
      valid',
      bytes' ∙ ap₂ drop (sym size) bytes ∙ drop-length-append payload q,
    )

pub frame_turn_waits :
    (c : EvClient)
    → IsValid c.input_buffer
    → c.message_length ≤ max_buffer_length
    → length (contents c.input_buffer) < c.message_length + 4
    → frame_turn c ≡ leaves c
unfolding frame_turn
frame_turn_waits c v small short =
    ground (arith, readable_bytes-contents c.input_buffer v, small, short)

-- The eight bytes at the front announce the session.
pub frame_size_turn_reads :
    (c : EvClient) (number len : ℕ) (q : List ℕ)
    → IsValid c.input_buffer
    → number < 2 ^ 32
    → len < 2 ^ 32
    → contents c.input_buffer ≡ htonl number ++ (htonl len ++ q)
    → (b : Tbuf) × (frame_size_turn c ≡ (
        if is_wrong number len
        then stops
        else goes_on (record c {
          state = except_frame;
          input_buffer = b;
          number = number;
          message_length = len;
        })))
      × IsValid b
      × (contents b ≡ q)
unfolding frame_size_turn
frame_size_turn_reads c number len q v small small' e =
    let (b, first, valid, bytes) =
      read_int32-htonl c.input_buffer number (htonl len ++ q) v small e in
    let (b', second, valid', bytes') = read_int32-htonl b len q valid small' bytes in
    let total =
      readable_bytes-contents c.input_buffer v
      ∙ ap length e
      ∙ length-append (htonl number) (htonl len ++ q) in
    let fits : 8 ≤ readable_bytes c.input_buffer =
      omega (arith, total, length-append (htonl len) q, length-htonl number, length-htonl len) in
    (b', ground (arith, first, second, fits), valid', bytes')
