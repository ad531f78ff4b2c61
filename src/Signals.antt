-- ===== src/Signals.antt =====
-- half_sync_half_async.h and list_timer.cpp: how a signal becomes a byte in a pipe that the main loop
-- reads. The handler runs with all signals blocked, so that a delivery is one step.
pub mod Delivery
mod Tests
use linux_socket_test.Prelude.{
  ℕ, ◌-◌, ◌%◌, List, [], ◌∷◌, ◌++◌, Option, none, some, Bool, true, false, not, ◌&&◌, ◌||◌, ◌==◌,
  leb, if◌then◌else◌, ◌>>=◌,
}

abbrev pub sigint : ℕ
sigint = 2

abbrev pub sigpipe : ℕ
sigpipe = 13

abbrev pub sigalrm : ℕ
sigalrm = 14

abbrev pub sigterm : ℕ
sigterm = 15

abbrev pub sigchld : ℕ
sigchld = 17

abbrev pub eagain : ℕ
eagain = 11

pub data Action : Type 0 where
  by_default : Action
  handled : Action
  ignored : Action

-- `errno`, the bytes in the signal pipe and how many more it takes, and what is set for each signal.
pub record Process : Type 0 where
  pub errno : ℕ
  pub pipe : List ℕ
  pub room : ℕ
  pub action : ℕ → Action
  pub restart : ℕ → Bool

-- `send` of one byte into the pipe, which does not block.
unfoldable pub send_byte : ℕ → Process → Process
send_byte b p =
    if p.room == 0
    then record p { errno = eagain }
    else record p { pipe = p.pipe ++ b ∷ []; room = p.room - 1 }

-- `sig_handler`: the first byte of the number.
unfoldable pub sig_handler : ℕ → Process → Process
sig_handler sig p =
    let save_errno = p.errno in record (send_byte (sig % 256) p) { errno = save_errno }

-- `sigaction` takes the numbers of the signals but SIGKILL and SIGSTOP.
abbrev catchable : ℕ → Bool
catchable sig = leb 1 sig && leb sig 64 && not (sig == 9 || sig == 19)

-- `addsig`; `none` is the assertion on `sigaction`.
unfoldable pub addsig : ℕ → Action → Bool → Process → Option Process
addsig sig handler restart p =
    if catchable sig
    then some (record p {
      action = λ n. if n == sig then handler else p.action n;
      restart = λ n. if n == sig then restart else p.restart n;
    })
    else none

-- `setup_sig_pipe`, for whether `epoll_create` and `socketpair` succeed.
unfoldable pub setup_sig_pipe : Bool → Bool → Process → Option Process
setup_sig_pipe epoll_created pair_made p =
    if epoll_created && pair_made
    then (addsig sigchld handled true p
        >>= addsig sigterm handled true
        >>= addsig sigint handled true
        >>= addsig sigpipe ignored true)
    else none

-- The same in `main` of the timer server.
unfoldable pub setup_timer_signals : Bool → Bool → Process → Option Process
setup_timer_signals epoll_created pair_made p =
    if epoll_created && pair_made
    then (addsig sigalrm handled true p >>= addsig sigterm handled true)
    else none

-- A signal arrives; `none` is the default action.
unfoldable pub deliver : ℕ → Process → Option Process
deliver sig p = elim (p.action sig) [
  | by_default ↦ none
  | handled ↦ some (sig_handler sig p)
  | ignored ↦ some p
]

unfoldable pub deliver_all : List ℕ → Process → Option Process
deliver_all [] p = some p
deliver_all (sig ∷ sigs) p = deliver sig p >>= deliver_all sigs
