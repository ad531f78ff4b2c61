-- ===== src/ProcessPool.antt =====
-- half_sync_half_async.h: a pool of processes. The parent hands each new connection to a child and
-- looks after children that end; a child accepts connections and serves them.
-- A pipe to a child is known by the index of the child, and a pid of -1 is `none`. What the calls
-- of the system give (epoll_wait, recv, waitpid, accept, fork) are arguments, and what is done
-- through them is a log of actions, the newest first.
pub mod Parent
pub mod Safety
pub mod Fairness
pub mod Reaping
pub mod Shutdown
pub mod Child
pub mod Users
pub mod Ending
mod Tests
use linux_socket_test.Prelude.{
  ℕ, zero, suc, ◌+◌, ◌%◌, List, [], ◌∷◌, Option, none, some, Bool, true, false, leb, ltb, ◌==◌,
  ◌&&◌, if◌then◌else◌, get_or, set, length, replicate,
}

-- `MAX_PROCESS_NUMBER`.
abbrev pub max_process_number : ℕ
max_process_number = 16

pub record Process : Type 0 where
  pub pid : Option ℕ

abbrev pub no_process : Process
no_process = record { pid = none }

pub data Action : Type 0 where
  sent closed killed : ℕ → Action

-- The pool as one process has it; `counter` is `sub_process_counter` of `run_parent`.
pub record Pool : Type 0 where
  pub process_number : ℕ
  pub idx : Option ℕ
  pub stop : Bool
  pub sub_process : List Process
  pub counter : ℕ
  pub log : List Action

abbrev pub pid_at : List Process → ℕ → Option ℕ
pid_at ps i = (get_or ps i no_process).pid

abbrev pub is_alive : Option ℕ → Bool
is_alive none = false
is_alive (some _) = true

-- What `fork` gives the process that calls it: in the parent the child's pid, in the child zero.
-- The constructor, with the result of each `fork`; `none` is an assertion that fails.
unfoldable pub fork_children : ℕ → ℕ → List ℕ → Pool → Option Pool
fork_children zero i forks p = some p
fork_children (suc k) i [] p = none
fork_children (suc k) i (ret ∷ forks) p =
    let in_parent =
      fork_children k (i + 1) forks
        (record p { sub_process = set p.sub_process i (record { pid = some ret }) }) in
    if ltb 0 ret
    then in_parent
    else some
        (record p { sub_process = set p.sub_process i (record { pid = some 0 }); idx = some i })

unfoldable pub new : ℕ → List ℕ → Option Pool
new process_number forks =
    if ltb 0 process_number && leb process_number max_process_number
    then fork_children process_number 0 forks (record {
      process_number = process_number;
      idx = none;
      stop = false;
      sub_process = replicate process_number no_process;
      counter = 0;
      log = [];
    })
    else none
