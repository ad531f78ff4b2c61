-- ===== src/Ttcp/Refused.antt =====
-- ttcp/ttcp_blocking.cpp and ttcp/ttcp_libev.cpp: sockets where the kernel refuses a call, and the
-- listening socket of the libev server.
use linux_socket_test.Prelude.{
  ℕ, zero, suc, ◌<◌, ◌≡◌, refl, ◌∙◌, List, [], ◌∷◌, ◌++◌, Option, none, some, true, false, arith,
  take,
}
use linux_socket_test.Sockets.{
  created, bound, listening, Socket, Kernel, done, died, ◌>>=◌, set_entry, change, new_socket,
  close, exit, or_die, make,
}
use linux_socket_test.Sockets.Lemmas.{
  kernel, entry_set, make-then, make-dies, change-then, change-dies, accept-dies,
}
use linux_socket_test.Ttcp.Setup.{
  accept_or_die, get_listenfd_or_die, connect_or_die, ready, put, bound_table, listening_table,
  accept_or_die-listens,
}

-- The call of `accept_or_die` that the kernel refuses, by its place.
accept_or_die-refused :
    (port l a b c i : ℕ) (rest : List (Option ℕ)) (t : ℕ → Option Socket)
    → i < 5
    → (u : ℕ → Option Socket) × (accept_or_die port
          (kernel (take i (some l ∷ some a ∷ some b ∷ some c ∷ []) ++ none ∷ rest) t)
        ≡ died (kernel rest u))
unfolding accept_or_die
accept_or_die-refused port l a b c zero rest t h = (t, make-dies new_socket _ rest t)
accept_or_die-refused port l a b c (suc zero) rest t h =
    let t₁ = put t l new_socket in
    (t₁, make-then new_socket _ l (none ∷ rest) t ∙ change-dies _ _ l rest t₁)
accept_or_die-refused port l a b c (suc (suc zero)) rest t h =
    let t₂ = put (put t l new_socket) l (ready port false created) in
    (
      t₂,
      make-then new_socket _ l (some a ∷ none ∷ rest) t
          ∙ change-then _ _ l a new_socket (ready port false created) (none ∷ rest) _
              (entry_set t l _) refl
          ∙ change-dies _ _ l rest t₂,
    )
accept_or_die-refused port l a b c (suc (suc (suc zero))) rest t h = (
  bound_table t l port,
  make-then new_socket _ l (some a ∷ some b ∷ none ∷ rest) t
      ∙ change-then _ _ l a new_socket (ready port false created) (some b ∷ none ∷ rest) _
          (entry_set t l _) refl
      ∙ change-then _ _ l b (ready port false created) (ready port false (bound port)) (none ∷ rest)
          _ (entry_set (put t l new_socket) l _) refl
      ∙ change-dies _ _ l rest (bound_table t l port),
)
accept_or_die-refused port l a b c (suc (suc (suc (suc zero)))) rest t h = (
  listening_table t l port,
  accept_or_die-listens port l a b c (none ∷ rest) t
      ∙ accept-dies _ l (ready port false (listening port 5)) (ready port false (listening port 5))
          rest (listening_table t l port) (entry_set (bound_table t l port) l _) refl,
)
accept_or_die-refused port l a b c (suc (suc (suc (suc (suc i))))) rest t h =
    absurd (omega (arith, h))

-- Whichever of its five calls the kernel refuses first, `accept_or_die` ends the process there and makes
-- no further call.
pub accept_or_die_dies :
    (port l a b c i : ℕ) (rest : List (Option ℕ)) (t : ℕ → Option Socket)
    → i < 5
    → (k : Kernel) × (accept_or_die port
          (kernel (take i (some l ∷ some a ∷ some b ∷ some c ∷ []) ++ none ∷ rest) t)
        ≡ died k)
      × (k.answers ≡ rest)
accept_or_die_dies port l a b c i rest t h =
    let (u, e) = accept_or_die-refused port l a b c i rest t h in (kernel rest u, e, refl)

-- The listening socket of the libev server does not block and listens on the port; the other
-- descriptors are as they were.
pub get_listenfd_or_die_listens :
    (port l a b c d : ℕ) (rest : List (Option ℕ)) (t : ℕ → Option Socket)
    → (k : Kernel) × (get_listenfd_or_die port
          (kernel (some l ∷ some a ∷ some b ∷ some c ∷ some d ∷ rest) t)
        ≡ done l k)
      × (k.table l ≡ some (ready port true (listening port 5)))
unfolding get_listenfd_or_die
get_listenfd_or_die_listens port l a b c d rest t =
    let quiet : Socket = record { stage = created; reuse_addr = false; nonblocking = true } in
    let t₁ = put t l new_socket in
    let t₂ = put t₁ l quiet in
    let t₃ = put t₂ l (ready port true created) in
    let t₄ = put t₃ l (ready port true (bound port)) in
    (
      kernel rest (put t₄ l (ready port true (listening port 5))),
      make-then new_socket _ l (some a ∷ some b ∷ some c ∷ some d ∷ rest) t
          ∙ change-then _ _ l a new_socket quiet (some b ∷ some c ∷ some d ∷ rest) t₁
              (entry_set t l _) refl
          ∙ change-then _ _ l b quiet (ready port true created) (some c ∷ some d ∷ rest) t₂
              (entry_set t₁ l _) refl
          ∙ change-then _ _ l c (ready port true created) (ready port true (bound port))
              (some d ∷ rest) t₃ (entry_set t₂ l _) refl
          ∙ change-then _ _ l d (ready port true (bound port)) (ready port true (listening port 5))
              rest t₄ (entry_set t₃ l _) refl,
      entry_set t₄ l _,
    )

-- A client that is refused its connection closes its socket before it ends.
pub connect_or_die_closes :
    (address fd : ℕ) (rest : List (Option ℕ)) (t : ℕ → Option Socket)
    → (k : Kernel) × (connect_or_die (some address) (kernel (some fd ∷ none ∷ rest) t) ≡ died k)
      × (k.table fd ≡ none)
unfolding connect_or_die ◌>>=◌ or_die make change close exit
connect_or_die_closes address fd rest t = (
  kernel rest (set_entry (put t fd new_socket) fd none),
  refl,
  entry_set (put t fd new_socket) fd none,
)
