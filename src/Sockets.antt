-- ===== src/Sockets.antt =====
-- The calls by which the programs set up their sockets (socket, fcntl, setsockopt, bind, listen, accept,
-- connect, close), on the table of open descriptors of a process. Whether a call succeeds, and the
-- descriptor it makes, is given; a call that a socket in its state does not allow fails.
pub mod Lemmas
use linux_socket_test.Prelude.{
  ℕ, List, [], ◌∷◌, Option, none, some, Bool, true, false, ◌==◌, if◌then◌else◌,
}

-- A socket as its calls have left it: created, bound to a port, listening with a backlog, connected.
pub data Stage : Type 0 where
  created : Stage
  bound : ℕ → Stage
  listening : ℕ → ℕ → Stage
  connected : Stage

pub record Socket : Type 0 where
  pub stage : Stage
  pub reuse_addr : Bool
  pub nonblocking : Bool

-- What the kernel answers to each call, -1 as `none`, and the open descriptors.
pub record Kernel : Type 0 where
  pub answers : List (Option ℕ)
  pub table : ℕ → Option Socket

-- How a piece of a program ends: it returns, `exit(1)` or an assertion ends it, or a call does not
-- return.
pub data Res (A : Type 0) : Type 0 where
  done : A → Kernel → Res A
  died : Kernel → Res A
  waiting : Kernel → Res A

abbrev pub Calls : Type 0 → Type 0
Calls A = Kernel → Res A

infixl 5 ◌>>=◌ ◌>>◌
unfoldable pub ◌>>=◌ : {A B : Type 0} → Calls A → (A → Calls B) → Calls B
◌>>=◌ m f k = elim (m k) [ done a k' ↦ f a k' | died k' ↦ died k' | waiting k' ↦ waiting k' ]

abbrev pub ◌>>◌ : {A B : Type 0} → Calls A → Calls B → Calls B
m >> n = m >>= λ _. n

abbrev pub return : {A : Type 0} → A → Calls A
return a k = done a k

abbrev pub set_entry : (ℕ → Option Socket) → ℕ → Option Socket → ℕ → Option Socket
set_entry t fd s n = if n == fd then s else t n

-- A call that makes a descriptor.
unfoldable pub make : Socket → Calls (Option ℕ)
make s k = elim k.answers [
  | [] ↦ waiting k
  | none ∷ rest ↦ done none (record k { answers = rest })
  | some fd ∷ rest ↦
      done (some fd) (record { answers = rest; table = set_entry k.table fd (some s) })
]

-- A call on a descriptor that changes its socket, where the state of the socket allows it.
unfoldable pub change : (Socket → Option Socket) → ℕ → Calls (Option ℕ)
change f fd k =
    let allowed : Option Socket = elim (k.table fd) [ none ↦ none | some s ↦ f s ] in
    elim k.answers [
      | [] ↦ waiting k
      | none ∷ rest ↦ done none (record k { answers = rest })
      | some r ∷ rest ↦ elim allowed [
        | none ↦ done none (record k { answers = rest })
        | some s ↦ done (some r) (record { answers = rest; table = set_entry k.table fd (some s) })
      ]
    ]

abbrev pub new_socket : Socket
new_socket = record { stage = created; reuse_addr = false; nonblocking = false }

abbrev pub connection : Socket
connection = record { stage = connected; reuse_addr = false; nonblocking = false }

abbrev pub socket : Calls (Option ℕ)
socket = make new_socket

abbrev pub set_reuse_addr : ℕ → Calls (Option ℕ)
set_reuse_addr = change (λ s. some (record s { reuse_addr = true }))

abbrev pub set_nonblocking : ℕ → Calls (Option ℕ)
set_nonblocking = change (λ s. some (record s { nonblocking = true }))

abbrev pub binds : ℕ → Socket → Option Socket
binds port s = elim s.stage [ created ↦ some (record s { stage = bound port }) | _ ↦ none ]

abbrev pub listens : ℕ → Socket → Option Socket
listens n s = elim s.stage [ bound port ↦ some (record s { stage = listening port n }) | _ ↦ none ]

abbrev pub connects : Socket → Option Socket
connects s = elim s.stage [ created ↦ some (record s { stage = connected }) | _ ↦ none ]

abbrev pub accepts : Socket → Option Socket
accepts s = elim s.stage [ listening port n ↦ some s | _ ↦ none ]

abbrev pub bind : ℕ → ℕ → Calls (Option ℕ)
bind fd port = change (binds port) fd

abbrev pub listen : ℕ → ℕ → Calls (Option ℕ)
listen fd n = change (listens n) fd

abbrev pub connect : ℕ → Calls (Option ℕ)
connect fd = change connects fd

-- `accept`: a descriptor for a connection, where the socket is listening.
unfoldable pub accept : ℕ → Calls (Option ℕ)
accept fd k =
    let allowed : Option Socket = elim (k.table fd) [ none ↦ none | some s ↦ accepts s ] in
    elim allowed [ none ↦ done none k | some s ↦ make connection k ]

-- `close`, whose result no caller reads.
unfoldable pub close : ℕ → Calls (Unit {0})
close fd k = done tt (record k { table = set_entry k.table fd none })

unfoldable pub exit : {A : Type 0} → Calls A
exit k = died k

-- A call behind which the program ends if it fails.
unfoldable pub or_die : Calls (Option ℕ) → Calls ℕ
or_die m = m >>= λ r. elim r [ none ↦ exit | some n ↦ return n ]
