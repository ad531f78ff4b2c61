-- ===== src/Ttcp/Blocking.antt =====
-- ttcp/ttcp_blocking.cpp: the server that receives and the client that sends.
-- An `int32_t` is its bit pattern below 2 ^ 32. Allocation does not fail.
use linux_socket_test.Prelude.{
  ℕ, zero, suc, ◌+◌, ◌*◌, ◌/◌, ◌%◌, ◌^◌, List, [], ◌∷◌, ◌++◌, Bool, ◌&&◌, not, ltb, leb, ◌==◌,
  if◌then◌else◌, drop, length, get_or, codes,
}
use linux_socket_test.Ttcp.{Conn, Run, done, died, fault, then_run, write_n, read_n}

-- `MAX_BUFFER_LENGTH`.
abbrev pub max_buffer_length : ℕ
max_buffer_length = 1024 * 1024 * 10

-- The four bytes of an integer in the order of the network, and back.
unfoldable pub htonl : ℕ → List ℕ
htonl n = n / 2 ^ 24 % 256 ∷ n / 2 ^ 16 % 256 ∷ n / 2 ^ 8 % 256 ∷ n % 256 ∷ []

unfoldable pub ntohl : List ℕ → ℕ
ntohl bs = get_or bs 0 0 * 2 ^ 24 + get_or bs 1 0 * 2 ^ 16 + get_or bs 2 0 * 2 ^ 8 + get_or bs 3 0

abbrev pub is_negative : ℕ → Bool
is_negative n = leb (2 ^ 31) n

-- How often a loop up to an `int` runs.
abbrev pub rounds_of : ℕ → ℕ
rounds_of number = if is_negative number then 0 else number

-- `total_len`, as a bit pattern: `sizeof(int32_t) + smsg.length`.
abbrev pub total_len : ℕ → ℕ
total_len n = (4 + n) % 2 ^ 32

-- `read_n` with an `int` as its length: with a negative one it reads nothing.
abbrev pub read_int_n : ℕ → Conn → Run (List ℕ)
read_int_n size c = if is_negative size then done [] c else read_n size c

-- One turn of the server's loop. Where the payload is shorter than its length field, that field lies
-- outside the memory that was allocated.
unfoldable pub receive_one : ℕ → Conn → Run {0} Unit
receive_one len c = then_run (read_int_n (total_len len) c) (λ got c₁.
    if length got == total_len len
    then (if ltb (length got) 4
        then fault
        else (if ntohl got == len
            then then_run (write_n (htonl (ntohl got)) c₁)
                (λ nw c₂. if nw == 4 then done tt c₂ else died c₂)
            else died c₁))
    else died c₁)

unfoldable pub receive_all : ℕ → ℕ → Conn → Run {0} Unit
receive_all zero len c = done tt c
receive_all (suc k) len c = then_run (receive_one len c) (λ u c₁. receive_all k len c₁)

unfoldable pub server_receive : Conn → Run {0} Unit
server_receive c = then_run (read_n 8 c) (λ got c₁.
    let number = ntohl got in
    let len = ntohl (drop 4 got) in
    if length got == 8
    then (if not (is_negative len) && ltb max_buffer_length len
        then died c₁
        else receive_all (rounds_of number) len c₁)
    else died c₁)

abbrev pub digits : List ℕ
digits = codes "0123456789ABCDEF"

-- The next `k` bytes of the payload, from the one at `i` on.
unfoldable pub payload_data : ℕ → ℕ → List ℕ
payload_data zero i = []
payload_data (suc k) i = get_or digits (i % 16) 0 ∷ payload_data k (i + 1)

-- One turn of the client's loop.
unfoldable pub send_one : ℕ → Conn → Run {0} Unit
send_one len c =
    let payload = htonl len ++ payload_data len 0 in
    then_run (write_n payload c) (λ nw c₁.
      if nw == length payload
      then then_run (read_n 4 c₁) (λ ack c₂.
        if length ack == 4 then (if ntohl ack == len then done tt c₂ else died c₂) else died c₂)
      else died c₁)

unfoldable pub send_all : ℕ → ℕ → Conn → Run {0} Unit
send_all zero len c = done tt c
send_all (suc k) len c = then_run (send_one len c) (λ u c₁. send_all k len c₁)

-- `client_send` once it is connected, for options that are not negative.
unfoldable pub client_send : ℕ → ℕ → Conn → Run {0} Unit
client_send number len c =
    then_run (write_n (htonl number ++ htonl len) c)
      (λ nw c₁. if nw == 8 then send_all number len c₁ else died c₁)
