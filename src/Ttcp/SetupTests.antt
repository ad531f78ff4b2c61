-- ===== src/Ttcp/SetupTests.antt =====
-- A server and a client of ttcp that are granted their sockets, and refused them.
use linux_socket_test.Prelude.{ℕ, ◌≡◌, refl, [], ◌∷◌, ◌++◌, Option, none, some, arith, take}
use linux_socket_test.Sockets.{Socket, Kernel, done, died, connection}
use linux_socket_test.Sockets.Lemmas.{kernel}
use linux_socket_test.Ttcp.Setup.{accept_or_die, accept_or_die_connects}
use linux_socket_test.Ttcp.Refused.{accept_or_die_dies}

abbrev nothing_open : ℕ → Option Socket
nothing_open n = none

accept_or_die_connects_example :
    (k : Kernel) × (accept_or_die 5001
        (kernel (some 3 ∷ some 0 ∷ some 0 ∷ some 0 ∷ some 4 ∷ []) nothing_open)
      ≡ done 4 k)
    × (k.table 4 ≡ some connection)
    × (k.table 3 ≡ none)
accept_or_die_connects_example =
    accept_or_die_connects 5001 3 0 0 0 4 3 [] nothing_open refl (omega arith) (omega arith)

accept_or_die_dies_example :
    (k : Kernel) × (accept_or_die 5001
        (kernel (take 2 (some 3 ∷ some 0 ∷ some 0 ∷ some 0 ∷ []) ++ none ∷ []) nothing_open)
      ≡ died k)
    × (k.answers ≡ [])
accept_or_die_dies_example = accept_or_die_dies 5001 3 0 0 0 2 [] nothing_open (omega arith)
