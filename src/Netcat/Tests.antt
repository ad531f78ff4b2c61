-- ===== src/Netcat/Tests.antt =====
-- Two pieces through netcat.
use linux_socket_test.Prelude.{◌≡◌, ◌≤◌, refl, List, [], ◌∷◌, true, false, arith, codes, replicate}
use linux_socket_test.Ttcp.{Call, moved, interrupted, Conn}
use linux_socket_test.Ttcp.Exact.{serving}
use linux_socket_test.Netcat.{send_loop}

abbrev calls : List Call
calls = moved 1 ∷ interrupted ∷ replicate 6 (moved 0)

enough : 5 ≤ serving calls
unfolding serving
enough = omega arith

abbrev out : Conn
out = record { calls = calls; input = []; output = codes "!" }

cut_short :
    send_loop ((codes "ab", true) ∷ (codes "cd", false) ∷ (codes "e", true) ∷ []) [] ≡ codes "ab"
unfolding send_loop
cut_short = refl
