-- ===== src/Tbuf/Tests.antt =====
-- Runs of Tbuf, and its theorems at concrete buffers.
use linux_socket_test.Prelude.{◌≡◌, refl, [], ◌∷◌, some, arith}
use linux_socket_test.Tbuf.{Tbuf, append, make_room, transfer, readfd, failed}
use linux_socket_test.Tbuf.Laws.{IsValid, contents, append_stores}

-- Five bytes at the end of six slots.
abbrev sample : Tbuf
sample = record { ridx = 1; widx = 6; buf = 4 ∷ 0 ∷ 1 ∷ 0 ∷ 0 ∷ 9 ∷ [] }

sample-IsValid : IsValid sample
sample-IsValid = omega arith

-- The bytes move to the front to make room for one more.
sample_transfers :
    append sample (8 ∷ []) ≡ some (record { ridx = 0; widx = 6; buf = 0 ∷ 1 ∷ 0 ∷ 0 ∷ 9 ∷ 8 ∷ [] })
unfolding append make_room transfer
sample_transfers = refl

read_fails : readfd sample failed ≡ some sample
unfolding readfd
read_fails = refl

append_stores_example :
    (d : Tbuf) × (append sample (8 ∷ 7 ∷ []) ≡ some d)
    × IsValid d
    × (contents d ≡ 0 ∷ 1 ∷ 0 ∷ 0 ∷ 9 ∷ 8 ∷ 7 ∷ [])
append_stores_example = append_stores sample (8 ∷ 7 ∷ []) sample-IsValid (omega arith) (omega arith)
