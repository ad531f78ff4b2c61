-- ===== src/Chargen/Tests.antt =====
-- A line of the message, and what a server sends.
use linux_socket_test.Prelude.{
  ◌+◌, ◌*◌, ◌%◌, ◌≡◌, refl, [], ◌∷◌, true, ltb, if◌then◌else◌, get_or, arith, length,
}
use linux_socket_test.Chargen.{ChargenServer, new, on_connection, on_write_complete}
use linux_socket_test.Chargen.Pattern.{new_rotates}

-- Byte 9 of line 90 is behind the end of the ring.
new_rotates_example :
    (length (new 0).message ≡ 94 * 73)
    × (get_or (new 0).message (90 * 73 + 9) 0 ≡ (if ltb 9 72 then 33 + (90 + 9) % 94 else 10))
new_rotates_example = new_rotates 0 90 9 (omega arith) (omega arith)

abbrev short : ChargenServer
short = record { message = 1 ∷ 2 ∷ []; transferred = 5; start_time = 0 }

sent_again :
    on_write_complete short (on_connection true short [])
    ≡ (record short { transferred = 7 }, 1 ∷ 2 ∷ 1 ∷ 2 ∷ [])
unfolding on_write_complete on_connection
sent_again = refl
