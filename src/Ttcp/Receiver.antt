-- ===== src/Ttcp/Receiver.antt =====
-- ttcp/ttcp_blocking.cpp, `server_receive`: every frame is acknowledged.
use linux_socket_test.Prelude.{
  ℕ, zero, suc, ◌+◌, ◌*◌, ◌^◌, ◌≤◌, ◌<◌, ◌≡◌, refl, ap, sym, ◌∙◌, List, [], ◌∷◌, ◌++◌, ltb, not,
  ◌&&◌, false, arith, length, length-append, append_assoc, append-nil, drop, drop-length-append,
  ◌-◌,
}
use native.Mathlib.Nat.{suc-mul}
use linux_socket_test.Ttcp.{Conn, done, fault, write_n, read_n}
use linux_socket_test.Ttcp.Blocking.{
  max_buffer_length, htonl, ntohl, is_negative, total_len, receive_one, receive_all, server_receive,
}
use linux_socket_test.Ttcp.Exact.{
  serving, Passes, Passes-nothing, Passes-then, Passes-read_write, Passes-input, write_n_exact,
  read_n_exact,
}

pub length-htonl : (n : ℕ) → length (htonl n) ≡ 4
unfolding htonl
length-htonl n = refl

pub ntohl-htonl : (n : ℕ) (rest : List ℕ) → n < 2 ^ 32 → ntohl (htonl n ++ rest) ≡ n
unfolding htonl ntohl
ntohl-htonl n rest h = omega (arith, h)

-- One frame for each of the payloads, and one acknowledgement for each.
unfoldable pub frames : ℕ → List (List ℕ) → List ℕ
frames len [] = []
frames len (payload ∷ ps) = (htonl len ++ payload) ++ frames len ps

unfoldable pub acks : ℕ → List (List ℕ) → List ℕ
acks len [] = []
acks len (payload ∷ ps) = htonl len ++ acks len ps

abbrev pub HaveLength : ℕ → List (List ℕ) → Type 0
HaveLength len [] = Unit
HaveLength len (payload ∷ ps) = (length payload ≡ len) × HaveLength len ps

receive_one_done :
    (len : ℕ) (payload : List ℕ) (c d d' : Conn)
    → len ≤ max_buffer_length
    → length (htonl len ++ payload) ≡ total_len len
    → read_n (length (htonl len ++ payload)) c ≡ done (htonl len ++ payload) d
    → write_n (htonl len) d ≡ done (length (htonl len)) d'
    → receive_one len c ≡ done tt d'
unfolding receive_one
receive_one_done len payload c d d' small whole got put =
    let got' : read_n (total_len len) c ≡ done (htonl len ++ payload) d =
      ap (λ n. read_n n c) (sym whole) ∙ got in
    let value : ntohl (htonl len ++ payload) ≡ len =
      ntohl-htonl len payload (omega (arith, small)) in
    ground (arith, got', put, value, whole, small, length-htonl len)

pub receive_one_exact :
    (len : ℕ) (payload rest : List ℕ) (c : Conn)
    → len ≤ max_buffer_length
    → length payload ≡ len
    → c.input ≡ (htonl len ++ payload) ++ rest
    → len + 8 ≤ serving c.calls
    → (d : Conn) × (receive_one len c ≡ done tt d) × Passes (htonl len ++ payload) (htonl len) c d
unfolding receive_one
receive_one_exact len payload rest c small size e h =
    let frame = htonl len ++ payload in
    let whole : length frame ≡ total_len len =
      omega (arith, size, small, length-append (htonl len) payload, length-htonl len) in
    let (d, got, p) = read_n_exact frame rest c e (omega (arith, whole, h, small)) in
    let (d', put, q) =
      write_n_exact (htonl len) d (omega (arith, length-htonl len, p.served, whole, h, small)) in
    (d', receive_one_done len payload c d d' small whole got put, Passes-read_write p q)

receive_all_exact :
    (len : ℕ) (ps : List (List ℕ)) (rest : List ℕ) (c : Conn)
    → len ≤ max_buffer_length
    → HaveLength len ps
    → c.input ≡ frames len ps ++ rest
    → length ps * (len + 8) ≤ serving c.calls
    → (d : Conn) × (receive_all (length ps) len c ≡ done tt d)
      × Passes (frames len ps) (acks len ps) c d
unfolding receive_all frames acks
receive_all_exact len [] rest c small sizes e h = (c, refl, Passes-nothing c)
receive_all_exact len (payload ∷ ps) rest c small sizes e h =
    let room : length ps * (len + 8) + (len + 8) ≤ serving c.calls =
      omega (arith, h, suc-mul (length ps) (len + 8)) in
    let here = e ∙ append_assoc (htonl len ++ payload) (frames len ps) rest in
    let (d, one, p) =
      receive_one_exact len payload (frames len ps ++ rest) c small (sizes.0) here
        (omega (arith, room)) in
    let (d', all, q) =
      receive_all_exact len ps rest d small (sizes.1) (Passes-input (frames len ps ++ rest) p here)
        (omega
          (arith, room, p.served, length-append (htonl len) payload, length-htonl len, sizes.0)) in
    (d', ground (arith, one, all), Passes-then p q)

pub server_receive_starts :
    (number len : ℕ) (c d : Conn)
    → number < 2 ^ 31
    → len < 2 ^ 32
    → not (is_negative len) && ltb max_buffer_length len ≡ false
    → read_n (length (htonl number ++ htonl len)) c ≡ done (htonl number ++ htonl len) d
    → server_receive c ≡ receive_all number len d
unfolding server_receive
server_receive_starts number len c d small word limit got =
    let eight : length (htonl number ++ htonl len) ≡ 8 =
      omega
        (arith, length-append (htonl number) (htonl len), length-htonl number, length-htonl len) in
    let got' : read_n 8 c ≡ done (htonl number ++ htonl len) d =
      ap (λ n. read_n n c) (sym eight) ∙ got in
    let value = ntohl-htonl number (htonl len) (omega (arith, small)) in
    let behind : drop 4 (htonl number ++ htonl len) ≡ htonl len =
      ap (λ n. drop n (htonl number ++ htonl len)) (sym (length-htonl number))
      ∙ drop-length-append (htonl number) (htonl len) in
    let value' : ntohl (drop 4 (htonl number ++ htonl len)) ≡ len =
      ap ntohl (behind ∙ sym (append-nil (htonl len))) ∙ ntohl-htonl len [] word in
    ground (arith, got', eight, value, value', small, limit)

-- A server that is sent a session header and as many frames as it announces, with any payloads of the
-- announced length, reads exactly these, writes one acknowledgement for each frame, and ends well,
-- however its calls cut the bytes up, provided that enough of them move bytes.
pub server_receive_acknowledges :
    (len : ℕ) (ps : List (List ℕ)) (rest : List ℕ) (c : Conn)
    → length ps < 2 ^ 31
    → len ≤ max_buffer_length
    → HaveLength len ps
    → c.input ≡ (htonl (length ps) ++ htonl len) ++ (frames len ps ++ rest)
    → length ps * (len + 8) + 8 ≤ serving c.calls
    → (d : Conn) × (server_receive c ≡ done tt d)
      × Passes ((htonl (length ps) ++ htonl len) ++ frames len ps) (acks len ps) c d
server_receive_acknowledges len ps rest c small limit sizes e h =
    let header = htonl (length ps) ++ htonl len in
    let eight = length-append (htonl (length ps)) (htonl len) in
    let (d, got, p) =
      read_n_exact header (frames len ps ++ rest) c e
        (omega (arith, h, eight, length-htonl (length ps), length-htonl len)) in
    let (d', all, q) =
      receive_all_exact len ps rest d limit sizes (Passes-input (frames len ps ++ rest) p e)
        (omega (arith, h, eight, length-htonl (length ps), length-htonl len, p.served)) in
    (
      d',
      server_receive_starts (length ps) len c d small (omega (arith, limit)) (ground (arith, limit))
            got
          ∙ all,
      Passes-then p q,
    )

receive_all_faults :
    (number missing : ℕ) (bytes : List ℕ) (c d : Conn)
    → 0 < number
    → 0 < missing
    → length bytes + missing ≡ 4
    → read_n (length bytes) c ≡ done bytes d
    → receive_all number (2 ^ 32 - missing) c ≡ fault
unfolding receive_all receive_one
receive_all_faults zero missing bytes c d some_frame some_missing four short =
    absurd (omega (arith, some_frame))
receive_all_faults (suc k) missing bytes c d some_frame some_missing four short =
    let len = 2 ^ 32 - missing in
    let whole : length bytes ≡ total_len len = omega (arith, four, some_missing) in
    let short' : read_n (total_len len) c ≡ done bytes d =
      ap (λ n. read_n n c) (sym whole) ∙ short in
    ground (arith, short', whole, four, some_missing)

-- A server that is sent a session header with a length from -4 to -1, and a positive number, reads as
-- many bytes as the length and four make, and then looks at a length field outside its memory.
pub server_receive_short_faults :
    (number missing : ℕ) (bytes rest : List ℕ) (c : Conn)
    → 0 < number
    → number < 2 ^ 31
    → 0 < missing
    → length bytes + missing ≡ 4
    → c.input ≡ (htonl number ++ htonl (2 ^ 32 - missing)) ++ (bytes ++ rest)
    → 12 ≤ serving c.calls
    → server_receive c ≡ fault
server_receive_short_faults number missing bytes rest c some_frame small some_missing four e h =
    let len = 2 ^ 32 - missing in
    let header = htonl number ++ htonl len in
    let eight = length-append (htonl number) (htonl len) in
    let (d, got, p) =
      read_n_exact header (bytes ++ rest) c e
        (omega (arith, h, eight, length-htonl number, length-htonl len)) in
    let (d', short, q) =
      read_n_exact bytes rest d (Passes-input (bytes ++ rest) p e)
        (omega (arith, h, four, eight, length-htonl number, length-htonl len, p.served)) in
    let start =
      server_receive_starts number len c d small (omega (arith, some_missing))
        (ground (arith, four)) got in
    start ∙ receive_all_faults number missing bytes d d' some_frame some_missing four short
