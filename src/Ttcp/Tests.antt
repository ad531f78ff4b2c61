-- ===== src/Ttcp/Tests.antt =====
-- Runs of the ttcp programs, and their theorems at short transfers.
use linux_socket_test.Prelude.{
  ℕ, ◌-◌, ◌^◌, ◌≤◌, ◌≡◌, refl, List, [], ◌∷◌, ◌++◌, arith, replicate, codes,
}
use linux_socket_test.Tbuf.{received, Tbuf}
use linux_socket_test.Tbuf.Laws.{IsValid, contents}
use linux_socket_test.Ttcp.{Call, moved, interrupted, ended, Conn, done, waiting, read_n, read_loop}
use linux_socket_test.Ttcp.Blocking.{htonl, server_receive, client_send}
use linux_socket_test.Ttcp.Exact.{serving, Passes}
use linux_socket_test.Ttcp.Receiver.{frames, acks, server_receive_acknowledges}
use linux_socket_test.Ttcp.Waits.{payloads}
use linux_socket_test.Ttcp.Sender.{transfer_completes}
use linux_socket_test.Ttcp.Libev.{
  except_frame, EvClient, returned, use_after_free, client_read_cb, delete_client,
}
use linux_socket_test.Ttcp.Chunks.{Took, client_read_cb_acknowledges, client_read_cb_last}

abbrev calls : List Call
calls = moved 1 ∷ interrupted ∷ replicate 40 (moved 0)

calls_serve : 41 ≤ serving calls
unfolding serving
calls_serve = omega arith

abbrev reader : Conn
reader = record { calls = calls; input = codes "abcde"; output = [] }

-- A stream that ends early gives what has arrived.
cut_off :
    read_n 3 (record { calls = moved 1 ∷ ended ∷ []; input = codes "ab"; output = [] })
    ≡ done (codes "ab") (record { calls = []; input = []; output = [] })
unfolding read_n read_loop
cut_off = refl

abbrev two_frames : List (List ℕ)
two_frames = codes "x" ∷ codes "y" ∷ []

abbrev server : Conn
server = record {
  calls = calls;
  input = (htonl 2 ++ htonl 1) ++ (frames 1 two_frames ++ []);
  output = [];
}

server_receive_acknowledges_example :
    (d : Conn) × (server_receive server ≡ done tt d)
    × Passes ((htonl 2 ++ htonl 1) ++ frames 1 two_frames) (acks 1 two_frames) server d
server_receive_acknowledges_example =
    server_receive_acknowledges 1 two_frames [] server (omega arith) (omega arith)
      (refl, (refl, tt)) refl (omega (arith, calls_serve))

abbrev short : Conn
short = record {
  calls = calls;
  input = (htonl 5 ++ htonl (2 ^ 32 - 3)) ++ (codes "a" ++ codes "bc");
  output = [];
}

abbrev client : Conn
client = record { calls = calls; input = acks 1 (payloads 2 1); output = [] }

transfer_completes_example :
    (c s : Conn) × (client_send 2 1 client ≡ done tt c)
    × (server_receive (record server { input = c.output }) ≡ done tt s)
    × (s.output ≡ client.input)
    × (c.input ≡ [])
    × (s.input ≡ [])
    × (w : Conn) × (client_send 2 1 (record client { input = acks 1 (payloads 1 1) }) ≡ waiting w)
    × (w.output ≡ (htonl 2 ++ htonl 1) ++ frames 1 (payloads 2 1))
    × (v : Conn) × (server_receive
          (record server { input = (htonl 2 ++ htonl 1) ++ frames 1 (payloads 1 1) })
        ≡ waiting v)
    × (v.output ≡ acks 1 (payloads 1 1))
transfer_completes_example =
    transfer_completes 2 1 1 client server (omega arith) (omega arith) (omega arith) refl refl
      (omega (arith, calls_serve)) refl (omega (arith, calls_serve))

-- Half a frame has arrived.
abbrev half : Tbuf
half = record { ridx = 0; widx = 2; buf = 0 ∷ 0 ∷ 0 ∷ 0 ∷ [] }

abbrev waiting_client : EvClient
waiting_client = record {
  id = 7;
  state = except_frame;
  read_number = 1;
  input_buffer = half;
  number = 3;
  message_length = 1;
  written = [];
}

half-IsValid : IsValid half
half-IsValid = record { small = omega arith; ordered = omega arith; inside = omega arith }

abbrev chunk : List ℕ
chunk = 0 ∷ 1 ∷ 120 ∷ 0 ∷ []

one_joined : contents half ++ chunk ≡ frames 1 (codes "x" ∷ []) ++ (0 ∷ [])
unfolding frames htonl
one_joined = refl

client_read_cb_acknowledges_example :
    (d : EvClient) × (client_read_cb waiting_client (6 ∷ 7 ∷ []) (received chunk)
      ≡ returned d (6 ∷ 7 ∷ []))
    × Took (codes "x" ∷ []) (0 ∷ []) waiting_client d
client_read_cb_acknowledges_example =
    client_read_cb_acknowledges (codes "x" ∷ []) (0 ∷ []) chunk waiting_client (6 ∷ 7 ∷ []) refl
      half-IsValid (omega arith) (omega arith) (omega arith) one_joined (refl, tt) (omega arith)
      (omega arith)

abbrev last_client : EvClient
last_client = record waiting_client { number = 2 }

last_joined : contents half ++ chunk ≡ frames 1 [] ++ ((htonl 1 ++ codes "x") ++ (0 ∷ []))
unfolding frames htonl
last_joined = refl

client_read_cb_last_example :
    (d : EvClient) × (client_read_cb last_client (6 ∷ 7 ∷ []) (received chunk)
      ≡ use_after_free d (delete_client (6 ∷ 7 ∷ []) 7))
    × (d.written ≡ [] ++ acks 1 (codes "x" ∷ []))
client_read_cb_last_example =
    client_read_cb_last [] (codes "x") (0 ∷ []) chunk last_client (6 ∷ 7 ∷ []) refl half-IsValid
      (omega arith) (omega arith) (omega arith) last_joined tt refl (omega arith)
