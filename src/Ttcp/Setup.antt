-- ===== src/Ttcp/Setup.antt =====
-- ttcp/ttcp_blocking.cpp and ttcp/ttcp_libev.cpp: how a listening socket and a connection are made.
use linux_socket_test.Prelude.{
  ℕ, ◌≡◌, ◌≢◌, refl, ◌∙◌, List, ◌∷◌, Option, none, some, Bool, true, false, arith,
}
use native.Mathlib.Decide.{ℕ_discrete}
use linux_socket_test.Sockets.{
  Stage, created, bound, listening, Socket, Kernel, done, Calls, ◌>>=◌, ◌>>◌, return, set_entry,
  new_socket, connection, socket, set_reuse_addr, set_nonblocking, bind, listen, connect, accept,
  accepts, close, exit, or_die,
}
use linux_socket_test.Sockets.Lemmas.{
  kernel, entry_set, entry_kept, make-then, change-then, accept-then,
}

-- `accept_or_die`: a connection from the one client, behind which the listening socket is closed.
unfoldable pub accept_or_die : ℕ → Calls ℕ
accept_or_die port = do
  listenfd ← or_die socket
  or_die (set_reuse_addr listenfd)
  or_die (bind listenfd port)
  or_die (listen listenfd 5)
  sockfd ← or_die (accept listenfd)
  close listenfd
  return sockfd

-- `get_listenfd_or_die`.
unfoldable pub get_listenfd_or_die : ℕ → Calls ℕ
get_listenfd_or_die port = do
  listenfd ← or_die socket
  or_die (set_nonblocking listenfd)
  or_die (set_reuse_addr listenfd)
  or_die (bind listenfd port)
  or_die (listen listenfd 5)
  return listenfd

-- `resolve_or_die` and the calls at the start of `client_send`, for what `gethostbyname` gives.
unfoldable pub connect_or_die : Option ℕ → Calls ℕ
connect_or_die none = exit
connect_or_die (some address) = do
  sockfd ← or_die socket
  ret ← connect sockfd
  elim ret [ some r ↦ return sockfd | none ↦ close sockfd >> exit ]

-- A socket as the calls between `socket` and `accept` leave it.
abbrev pub ready : ℕ → Bool → Stage → Socket
ready port waits_not stage = record { stage = stage; reuse_addr = true; nonblocking = waits_not }

abbrev pub put : (ℕ → Option Socket) → ℕ → Socket → ℕ → Option Socket
put t fd s = set_entry t fd (some s)

-- The table behind four calls on a new socket, and behind five of them.
abbrev pub bound_table : (ℕ → Option Socket) → ℕ → ℕ → ℕ → Option Socket
bound_table t l port =
    put (put (put t l new_socket) l (ready port false created)) l (ready port false (bound port))

abbrev pub listening_table : (ℕ → Option Socket) → ℕ → ℕ → ℕ → Option Socket
listening_table t l port = put (bound_table t l port) l (ready port false (listening port 5))

-- The end of the function, from `accept` on.
abbrev accept_part : ℕ → Calls ℕ
accept_part listenfd = do sockfd ← or_die (accept listenfd); close listenfd; return sockfd

pub accept_or_die-listens :
    (port l a b c : ℕ) (rest : List (Option ℕ)) (t : ℕ → Option Socket)
    → accept_or_die port (kernel (some l ∷ some a ∷ some b ∷ some c ∷ rest) t)
      ≡ accept_part l (kernel rest (listening_table t l port))
unfolding accept_or_die
accept_or_die-listens port l a b c rest t =
    make-then new_socket _ l (some a ∷ some b ∷ some c ∷ rest) t
    ∙ change-then _ _ l a new_socket (ready port false created) (some b ∷ some c ∷ rest) _
        (entry_set t l _) refl
    ∙ change-then _ _ l b (ready port false created) (ready port false (bound port)) (some c ∷ rest)
        _ (entry_set (put t l new_socket) l _) refl
    ∙ change-then _ _ l c (ready port false (bound port)) (ready port false (listening port 5)) rest
        _ (entry_set (put (put t l new_socket) l (ready port false created)) l _) refl

accept_part-connects :
    (l s : ℕ) (x : Socket) (rest : List (Option ℕ)) (t : ℕ → Option Socket)
    → t l ≡ some x
    → accepts x ≡ some x
    → accept_part l (kernel (some s ∷ rest) t)
      ≡ done s (kernel rest (set_entry (put t s connection) l none))
unfolding close ◌>>=◌
accept_part-connects l s x rest t e h = accept-then _ l s x x rest t e h

-- The table behind the whole function, for every descriptor.
table_after :
    (t : ℕ → Option Socket) (l s port n : ℕ)
    → t l ≡ none
    → n ≢ s
    → set_entry (put (listening_table t l port) s connection) l none n ≡ t n
table_after t l s port n free other = elim (ℕ_discrete n l) [
  | yes e ↦ ground (arith, e, free)
  | no e ↦ ground (arith, e, other)
]

-- Where the kernel grants every call, with a free descriptor for the listening socket and another one
-- for the connection, the result is a connected socket; its descriptor is the only one that is open
-- and was not before.
pub accept_or_die_connects :
    (port l a b c s n : ℕ) (rest : List (Option ℕ)) (t : ℕ → Option Socket)
    → t l ≡ none
    → s ≢ l
    → n ≢ s
    → (k : Kernel) × (accept_or_die port
          (kernel (some l ∷ some a ∷ some b ∷ some c ∷ some s ∷ rest) t)
        ≡ done s k)
      × (k.table s ≡ some connection)
      × (k.table n ≡ t n)
accept_or_die_connects port l a b c s n rest t free other h =
    let u = listening_table t l port in
    let v = set_entry (put u s connection) l none in
    (
      kernel rest v,
      accept_or_die-listens port l a b c (some s ∷ rest) t
          ∙ accept_part-connects l s (ready port false (listening port 5)) rest u
              (entry_set (bound_table t l port) l _) refl,
      entry_kept (put u s connection) l s none other ∙ entry_set u s (some connection),
      table_after t l s port n free h,
    )
