-- ===== src/Ttcp/Waits.antt =====
-- ttcp/ttcp_blocking.cpp: `read_n` and the server wait for what has not arrived.
use linux_socket_test.Prelude.{
  ℕ, zero, suc, ◌+◌, ◌*◌, ◌^◌, ◌≤◌, ◌<◌, ◌≡◌, refl, ap, sym, ◌∙◌, List, [], ◌∷◌, ◌++◌, arith,
  length, length-append, append_assoc, append-nil, replicate,
}
use native.Mathlib.Nat.{suc-mul}
use linux_socket_test.Ttcp.{
  Call, moved, ended, interrupted, broken, Conn, waiting, read_loop, read_n,
}
use linux_socket_test.Ttcp.Blocking.{
  max_buffer_length, htonl, total_len, receive_one, receive_all, server_receive, payload_data,
}
use linux_socket_test.Ttcp.Exact.{serving, Passes-input, read_n_exact}
use linux_socket_test.Ttcp.Receiver.{
  length-htonl, frames, acks, receive_one_exact, server_receive_starts,
}

read_loop_waits :
    (cs : List Call) (size : ℕ) (o : List ℕ)
    → 0 < size
    → 0 < serving cs
    → (w : Conn) × (read_loop cs size [] [] o ≡ waiting w) × (w.output ≡ o)
unfolding read_loop serving
read_loop_waits [] size o h s = absurd (omega (arith, s))
read_loop_waits (moved k ∷ cs) size o h s =
    (record { calls = moved k ∷ cs; input = []; output = o }, ground (arith, h), refl)
read_loop_waits (interrupted ∷ cs) size o h s =
    let (w, wait, same) = read_loop_waits cs size o h s in (w, ground (arith, wait, h), same)
read_loop_waits (ended ∷ cs) size o h s = absurd (omega (arith, s))
read_loop_waits (broken ∷ cs) size o h s = absurd (omega (arith, s))

-- A read for which nothing has arrived does not return.
pub read_n_waits :
    (size : ℕ) (c : Conn)
    → c.input ≡ []
    → 0 < size
    → 0 < serving c.calls
    → (w : Conn) × (read_n size c ≡ waiting w) × (w.output ≡ c.output)
unfolding read_n
read_n_waits size c e h s =
    let (w, wait, same) = read_loop_waits c.calls size c.output h s in
    (w, ap (λ x. read_loop c.calls size [] x c.output) e ∙ wait, same)

pub length-payload_data : (k i : ℕ) → length (payload_data k i) ≡ k
unfolding payload_data
length-payload_data zero i = refl
length-payload_data (suc k) i = ap suc (length-payload_data k (i + 1))

-- The payloads that the client sends.
abbrev pub payloads : ℕ → ℕ → List (List ℕ)
payloads number len = replicate number (payload_data len 0)

receive_one_waits :
    (len : ℕ) (c : Conn)
    → len ≤ max_buffer_length
    → c.input ≡ []
    → 0 < serving c.calls
    → (w : Conn) × (receive_one len c ≡ waiting w) × (w.output ≡ c.output)
unfolding receive_one
receive_one_waits len c small e s =
    let (w, wait, same) = read_n_waits (total_len len) c e (omega (arith, small)) s in
    (w, ground (arith, wait, small), same)

receive_all_waits :
    (number k len : ℕ) (c : Conn)
    → len ≤ max_buffer_length
    → k < number
    → c.input ≡ frames len (payloads k len)
    → number * (len + 8) ≤ serving c.calls
    → (w : Conn) × (receive_all number len c ≡ waiting w)
      × (w.output ≡ c.output ++ acks len (payloads k len))
unfolding receive_all frames acks
receive_all_waits zero k len c small less e h = absurd (omega (arith, less))
receive_all_waits (suc n) zero len c small less e h =
    let (w, wait, same) = receive_one_waits len c small e (omega (arith, h, suc-mul n (len + 8))) in
    (w, ground (arith, wait), same ∙ sym (append-nil c.output))
receive_all_waits (suc n) (suc k) len c small less e h =
    let room : n * (len + 8) + (len + 8) ≤ serving c.calls =
      omega (arith, h, suc-mul n (len + 8)) in
    let later = frames len (payloads k len) in
    let frame = htonl len ++ payload_data len 0 in
    let size = length-append (htonl len) (payload_data len 0) in
    let (d, one, p) =
      receive_one_exact len (payload_data len 0) later c small (length-payload_data len 0) e
        (omega (arith, room)) in
    let (w, wait, out) =
      receive_all_waits n k len d small (omega (arith, less)) (Passes-input later p e)
        (omega (arith, room, p.served, size, length-htonl len, length-payload_data len 0)) in
    (
      w,
      ground (arith, one, wait),
      out
          ∙ ap (λ x. x ++ acks len (payloads k len)) p.given
          ∙ append_assoc c.output (htonl len) (acks len (payloads k len)),
    )

-- A server that is sent a session header and fewer frames than it announces has acknowledged those,
-- and waits for the next.
pub server_receive_waits :
    (number k len : ℕ) (c : Conn)
    → number < 2 ^ 31
    → len ≤ max_buffer_length
    → k < number
    → c.input ≡ (htonl number ++ htonl len) ++ frames len (payloads k len)
    → number * (len + 8) + 8 ≤ serving c.calls
    → (w : Conn) × (server_receive c ≡ waiting w)
      × (w.output ≡ c.output ++ acks len (payloads k len))
server_receive_waits number k len c small limit less e h =
    let header = htonl number ++ htonl len in
    let eight = length-append (htonl number) (htonl len) in
    let (d, got, p) =
      read_n_exact header (frames len (payloads k len)) c e
        (omega (arith, h, eight, length-htonl number, length-htonl len)) in
    let (w, wait, out) =
      receive_all_waits number k len d limit less (Passes-input (frames len (payloads k len)) p e)
        (omega (arith, h, eight, length-htonl number, length-htonl len, p.served)) in
    let same : d.output ≡ c.output = p.given ∙ append-nil c.output in
    (
      w,
      server_receive_starts number len c d small (omega (arith, limit)) (ground (arith, limit)) got
          ∙ wait,
      out ∙ ap (λ x. x ++ acks len (payloads k len)) same,
    )
