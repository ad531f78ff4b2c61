-- ===== src/Rot13/Setup.antt =====
-- libevent_test/low_level_rot13_server.cpp: the listening socket, and the connections that it gives.
use linux_socket_test.Prelude.{
  ℕ, ◌≡◌, ◌≢◌, refl, ◌∙◌, List, ◌∷◌, Option, none, some, Bool, true, false, ltb, if◌then◌else◌,
}
use linux_socket_test.Sockets.{
  Socket, Kernel, done, Calls, ◌>>=◌, ◌>>◌, return, set_entry, make, change, connection, socket,
  set_reuse_addr, set_nonblocking, bind, listen, accept, accepts, close,
}
use linux_socket_test.Sockets.Lemmas.{kernel, entry_set, entry_kept}

abbrev pub fd_setsize : ℕ
fd_setsize = 1024

-- The part of `run` in front of the event loop, for whether `event_base_new` succeeds: the listening
-- socket, or `none` where `run` returns at once. What `socket` gives is not tested; with -1 every call
-- behind it fails, `bind` first.
unfoldable pub run : Bool → Calls (Option ℕ)
run base_made = do
  listener ← socket
  elim listener [
    | none ↦ return none
    | some fd ↦ set_nonblocking fd >> set_reuse_addr fd >> bind fd 40713 >>= λ bound. elim bound [
      | none ↦ return none
      | some r ↦ listen fd 16 >>= λ listens. elim listens [
        | none ↦ return none
        | some q ↦ return (if base_made then some fd else none)
      ]
    ]
  ]

-- `do_accept`: the connection that is served from then on.
unfoldable pub do_accept : ℕ → Calls (Option ℕ)
do_accept listener = do
  accepted ← accept listener
  elim accepted [
    | none ↦ return none
    | some fd ↦
        if ltb fd_setsize fd
        then (close fd >> return none)
        else (set_nonblocking fd >> return (some fd))
  ]

abbrev pub served : Socket
served = record connection { nonblocking = true }

-- What `do_accept` leaves of the descriptor of a new connection.
abbrev pub kept : ℕ → Bool → Option Socket
kept fd large = if large then none else some served

serve_or_close :
    (listener fd r : ℕ) (large : Bool) (s : Socket) (rest : List (Option ℕ)) (t : ℕ → Option Socket)
    → t listener ≡ some s
    → accepts s ≡ some s
    → ltb fd_setsize fd ≡ large
    → do_accept listener (kernel (some fd ∷ some r ∷ rest) t)
      ≡ done (if large then none else some fd) (
          kernel
            (if large then some r ∷ rest else rest)
            (set_entry (set_entry t fd (some connection)) fd (kept fd large)))
unfolding do_accept ◌>>=◌ accept make change close
serve_or_close listener fd r true s rest t e h test =
    rw (e, do_accept, ◌>>=◌, accept) (rw h (rw test refl))
serve_or_close listener fd r false s rest t e h test =
    rw (e, do_accept, ◌>>=◌, accept)
      (rw h (rw test (rw (entry_set t fd (some connection), ◌>>=◌, change) refl)))

-- On a listening socket a new connection with a descriptor of at most FD_SETSIZE is served and does not
-- block, one with a greater descriptor is closed again, and no other descriptor is changed.
pub do_accept_serves_or_closes :
    (listener fd r m : ℕ) (s : Socket) (rest : List (Option ℕ)) (t : ℕ → Option Socket)
    → t listener ≡ some s
    → accepts s ≡ some s
    → m ≢ fd
    → (k : Kernel) × (do_accept listener (kernel (some fd ∷ some r ∷ rest) t)
        ≡ done (if ltb fd_setsize fd then none else some fd) k)
      × (k.table fd ≡ (if ltb fd_setsize fd then none else some served))
      × (k.table m ≡ t m)
do_accept_serves_or_closes listener fd r m s rest t e h other =
    let large = ltb fd_setsize fd in
    let u = set_entry t fd (some connection) in
    (
      kernel (if large then some r ∷ rest else rest) (set_entry u fd (kept fd large)),
      serve_or_close listener fd r large s rest t e h refl,
      entry_set u fd (kept fd large),
      entry_kept u fd m (kept fd large) other ∙ entry_kept t fd m (some connection) other,
    )
