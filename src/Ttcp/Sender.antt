-- ===== src/Ttcp/Sender.antt =====
-- ttcp/ttcp_blocking.cpp, `client_send`, and the two programs together.
use linux_socket_test.Prelude.{
  ℕ, zero, suc, ◌+◌, ◌*◌, ◌^◌, ◌≤◌, ◌<◌, ◌≡◌, refl, ap, sym, ◌∙◌, List, [], ◌++◌, arith, length,
  length-append, append_assoc, append-nil, length-replicate,
}
use native.Mathlib.Nat.{suc-mul}
use linux_socket_test.Ttcp.{Conn, done, waiting, write_n, read_n}
use linux_socket_test.Ttcp.Blocking.{
  max_buffer_length, htonl, ntohl, payload_data, send_one, send_all, client_send, server_receive,
}
use linux_socket_test.Ttcp.Exact.{
  serving, Passes, Passes-nothing, Passes-then, Passes-write_read, Passes-input, write_n_exact,
  read_n_exact,
}
use linux_socket_test.Ttcp.Waits.{length-payload_data, payloads, read_n_waits, server_receive_waits}
use linux_socket_test.Ttcp.Receiver.{
  length-htonl, ntohl-htonl, frames, acks, HaveLength, server_receive_acknowledges,
}

payloads-HaveLength : (number len : ℕ) → HaveLength len (payloads number len)
payloads-HaveLength zero len = tt
payloads-HaveLength (suc k) len = (length-payload_data len 0, payloads-HaveLength k len)

send_one_done :
    (len : ℕ) (c d d' : Conn)
    → len < 2 ^ 32
    → write_n (htonl len ++ payload_data len 0) c
      ≡ done (length (htonl len ++ payload_data len 0)) d
    → read_n (length (htonl len)) d ≡ done (htonl len) d'
    → send_one len c ≡ done tt d'
unfolding send_one
send_one_done len c d d' word put got =
    let got' : read_n 4 d ≡ done (htonl len) d' =
      ap (λ n. read_n n d) (sym (length-htonl len)) ∙ got in
    let value : ntohl (htonl len) ≡ len =
      ap ntohl (sym (append-nil (htonl len))) ∙ ntohl-htonl len [] word in
    ground (arith, put, got', value, length-htonl len)

send_one_exact :
    (len : ℕ) (rest : List ℕ) (c : Conn)
    → len < 2 ^ 32
    → c.input ≡ htonl len ++ rest
    → len + 8 ≤ serving c.calls
    → (d : Conn) × (send_one len c ≡ done tt d)
      × Passes (htonl len) (htonl len ++ payload_data len 0) c d
send_one_exact len rest c word e h =
    let frame = htonl len ++ payload_data len 0 in
    let size = length-append (htonl len) (payload_data len 0) in
    let (d, put, p) =
      write_n_exact frame c (omega (arith, h, size, length-htonl len, length-payload_data len 0)) in
    let (d', got, q) =
      read_n_exact (htonl len) rest d (Passes-input (htonl len ++ rest) p e)
        (omega (arith, h, p.served, size, length-htonl len, length-payload_data len 0)) in
    (d', send_one_done len c d d' word put got, Passes-write_read p q)

send_one_waits :
    (len : ℕ) (c : Conn)
    → c.input ≡ []
    → len + 8 ≤ serving c.calls
    → (w : Conn) × (send_one len c ≡ waiting w)
      × (w.output ≡ c.output ++ (htonl len ++ payload_data len 0))
unfolding send_one
send_one_waits len c e h =
    let frame = htonl len ++ payload_data len 0 in
    let size = length-append (htonl len) (payload_data len 0) in
    let (d, put, p) =
      write_n_exact frame c (omega (arith, h, size, length-htonl len, length-payload_data len 0)) in
    let (w, wait, same) =
      read_n_waits 4 d (Passes-input [] p e) (omega arith)
        (omega (arith, h, p.served, size, length-htonl len, length-payload_data len 0)) in
    (w, ground (arith, put, wait), same ∙ p.given)

send_all_waits :
    (number k len : ℕ) (c : Conn)
    → len < 2 ^ 32
    → k < number
    → c.input ≡ acks len (payloads k len)
    → number * (len + 8) ≤ serving c.calls
    → (w : Conn) × (send_all number len c ≡ waiting w)
      × (w.output ≡ c.output ++ frames len (payloads (suc k) len))
unfolding send_all acks frames
send_all_waits zero k len c word less e h = absurd (omega (arith, less))
send_all_waits (suc n) zero len c word less e h =
    let (w, wait, out) = send_one_waits len c e (omega (arith, h, suc-mul n (len + 8))) in
    let frame = htonl len ++ payload_data len 0 in
    (w, ground (arith, wait), out ∙ ap (λ x. c.output ++ x) (sym (append-nil frame)))
send_all_waits (suc n) (suc k) len c word less e h =
    let room : n * (len + 8) + (len + 8) ≤ serving c.calls =
      omega (arith, h, suc-mul n (len + 8)) in
    let later = acks len (payloads k len) in
    let frame = htonl len ++ payload_data len 0 in
    let sent = frames len (payloads (suc k) len) in
    let (d, one, p) = send_one_exact len later c word e (omega (arith, room)) in
    let size = length-append (htonl len) (payload_data len 0) in
    let (w, wait, out) =
      send_all_waits n k len d word (omega (arith, less)) (Passes-input later p e)
        (omega (arith, room, p.served, size, length-htonl len, length-payload_data len 0)) in
    (
      w,
      ground (arith, one, wait),
      out ∙ ap (λ x. x ++ sent) p.given ∙ append_assoc c.output frame sent,
    )

send_all_exact :
    (number len : ℕ) (rest : List ℕ) (c : Conn)
    → len < 2 ^ 32
    → c.input ≡ acks len (payloads number len) ++ rest
    → number * (len + 8) ≤ serving c.calls
    → (d : Conn) × (send_all number len c ≡ done tt d)
      × Passes (acks len (payloads number len)) (frames len (payloads number len)) c d
unfolding send_all acks frames
send_all_exact zero len rest c word e h = (c, refl, Passes-nothing c)
send_all_exact (suc k) len rest c word e h =
    let room : k * (len + 8) + (len + 8) ≤ serving c.calls =
      omega (arith, h, suc-mul k (len + 8)) in
    let later = acks len (payloads k len) in
    let here = e ∙ append_assoc (htonl len) later rest in
    let (d, one, p) = send_one_exact len (later ++ rest) c word here (omega (arith, room)) in
    let size = length-append (htonl len) (payload_data len 0) in
    let (d', all, q) =
      send_all_exact k len rest d word (Passes-input (later ++ rest) p here)
        (omega (arith, room, p.served, size, length-htonl len, length-payload_data len 0)) in
    (d', ground (arith, one, all), Passes-then p q)

client_send_done :
    (number len : ℕ) (c d : Conn)
    → write_n (htonl number ++ htonl len) c ≡ done (length (htonl number ++ htonl len)) d
    → client_send number len c ≡ send_all number len d
unfolding client_send
client_send_done number len c d put =
    let eight : length (htonl number ++ htonl len) ≡ 8 =
      omega
        (arith, length-append (htonl number) (htonl len), length-htonl number, length-htonl len) in
    ground (arith, put, eight)

client_send_sends :
    (number len : ℕ) (rest : List ℕ) (c : Conn)
    → len < 2 ^ 32
    → c.input ≡ acks len (payloads number len) ++ rest
    → number * (len + 8) + 8 ≤ serving c.calls
    → (d : Conn) × (client_send number len c ≡ done tt d)
      × Passes
          (acks len (payloads number len))
          ((htonl number ++ htonl len) ++ frames len (payloads number len))
          c
          d
client_send_sends number len rest c word e h =
    let header = htonl number ++ htonl len in
    let eight = length-append (htonl number) (htonl len) in
    let (d, put, p) =
      write_n_exact header c (omega (arith, h, eight, length-htonl number, length-htonl len)) in
    let (d', all, q) =
      send_all_exact number len rest d word
        (Passes-input (acks len (payloads number len) ++ rest) p e)
        (omega (arith, h, p.served, eight, length-htonl number, length-htonl len)) in
    (d', client_send_done number len c d put ∙ all, Passes-then p q)

client_send_waits :
    (number k len : ℕ) (c : Conn)
    → len < 2 ^ 32
    → k < number
    → c.input ≡ acks len (payloads k len)
    → number * (len + 8) + 8 ≤ serving c.calls
    → (w : Conn) × (client_send number len c ≡ waiting w)
      × (w.output ≡ c.output ++ ((htonl number ++ htonl len) ++ frames len (payloads (suc k) len)))
client_send_waits number k len c word less e h =
    let header = htonl number ++ htonl len in
    let eight = length-append (htonl number) (htonl len) in
    let sent = frames len (payloads (suc k) len) in
    let (d, put, p) =
      write_n_exact header c (omega (arith, h, eight, length-htonl number, length-htonl len)) in
    let (w, wait, out) =
      send_all_waits number k len d word less (Passes-input (acks len (payloads k len)) p e)
        (omega (arith, h, p.served, eight, length-htonl number, length-htonl len)) in
    (
      w,
      client_send_done number len c d put ∙ wait,
      out ∙ ap (λ x. x ++ sent) p.given ∙ append_assoc c.output header sent,
    )

-- A client and a server that are connected, so that each reads what the other writes, both end well
-- a session of at least one frame:
-- the client accepts every acknowledgement, and the server every frame, and no byte is left unread,
-- however the calls on the two sides cut the bytes up, provided that enough of them move bytes.
-- Neither needs what the other can write only later: for every number `k` of frames below that of the
-- session, a client to which only `k` acknowledgements have come has written the header and one more
-- frame than that before it waits, and a server to which only the header and `k` frames have come has
-- written `k` acknowledgements before it waits.
pub transfer_completes :
    (number len k : ℕ) (client server : Conn)
    → number < 2 ^ 31
    → k < number
    → len ≤ max_buffer_length
    → client.input ≡ acks len (payloads number len)
    → client.output ≡ []
    → number * (len + 8) + 8 ≤ serving client.calls
    → server.output ≡ []
    → number * (len + 8) + 8 ≤ serving server.calls
    → (c s : Conn) × (client_send number len client ≡ done tt c)
      × (server_receive (record server { input = c.output }) ≡ done tt s)
      × (s.output ≡ client.input)
      × (c.input ≡ [])
      × (s.input ≡ [])
      × (w : Conn) × (client_send number len (record client { input = acks len (payloads k len) })
          ≡ waiting w)
      × (w.output ≡ (htonl number ++ htonl len) ++ frames len (payloads (suc k) len))
      × (v : Conn) × (server_receive
            (record server { input = (htonl number ++ htonl len) ++ frames len (payloads k len) })
          ≡ waiting v)
      × (v.output ≡ acks len (payloads k len))
transfer_completes number len k client server small less limit incoming fresh calls fresh' calls' =
    let ps = payloads number len in
    let count : length ps ≡ number = length-replicate number (payload_data len 0) in
    let nothing = incoming ∙ sym (append-nil (acks len ps)) in
    let (c, sent, p) =
      client_send_sends number len [] client (omega (arith, limit)) nothing calls in
    let stream = p.given ∙ ap (λ x. x ++ ((htonl number ++ htonl len) ++ frames len ps)) fresh in
    let stream' : c.output ≡ (htonl (length ps) ++ htonl len) ++ (frames len ps ++ []) =
      rw (count, append-nil (frames len ps)) stream in
    let (s, received, q) =
      server_receive_acknowledges len ps [] (record server { input = c.output })
        (omega (arith, count, small)) limit (payloads-HaveLength number len) stream'
        (rw count calls') in
    let header = htonl number ++ htonl len in
    let (w, wait, out) =
      client_send_waits number k len (record client { input = acks len (payloads k len) })
        (omega (arith, limit)) less refl calls in
    let (v, wait', out') =
      server_receive_waits number k len
        (record server { input = header ++ frames len (payloads k len) }) small limit less refl
        calls' in
    (
      c,
      s,
      sent,
      received,
      q.given ∙ ap (λ x. x ++ acks len ps) fresh' ∙ sym incoming,
      Passes-input [] p nothing,
      Passes-input [] q
          (stream' ∙ sym (append_assoc (htonl (length ps) ++ htonl len) (frames len ps) [])),
      w,
      wait,
      out ∙ ap (λ x. x ++ (header ++ frames len (payloads (suc k) len))) fresh,
      v,
      wait',
      out' ∙ ap (λ x. x ++ acks len (payloads k len)) fresh',
    )
