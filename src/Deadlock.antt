-- ===== src/Deadlock.antt =====
-- deadlock.cpp: two threads that lock two mutexes in opposite orders.
pub mod Codes
pub mod Runs
mod Tests
use linux_socket_test.Prelude.{ℕ, ◌+◌, ◌≡◌, List, [], ◌∷◌, Option, none, some, ◌>>=◌}

-- Who has locked a mutex.
pub data Holder : Type 0 where
  free : Holder
  parent : Holder
  child : Holder

-- The next statement of a thread: each locks a first mutex, adds one to its variable, locks the second
-- mutex, adds the other variable to its own and one to the other, and unlocks in the opposite order.
pub data Pc : Type 0 where
  lock_first : Pc
  bump : Pc
  lock_second : Pc
  add : Pc
  unlock_second : Pc
  unlock_first : Pc
  finished : Pc

-- The two variables, the two mutexes, and where `main` and `another` stand.
pub record State : Type 0 where
  pub a : ℕ
  pub b : ℕ
  pub mutex_a : Holder
  pub mutex_b : Holder
  pub main_pc : Pc
  pub another_pc : Pc

-- When the second thread is created.
abbrev pub init : State
init = record {
  a = 0;
  b = 0;
  mutex_a = free;
  mutex_b = free;
  main_pc = lock_first;
  another_pc = lock_first;
}

-- `pthread_mutex_lock`; `none` is a thread that has to wait.
abbrev lock : Holder → Holder → Option Holder
lock who free = some who
lock who _ = none

-- A statement of `main`; `none` where it has to wait, or goes on to `pthread_join`.
unfoldable pub main_step : State → Option State
main_step s = elim s.main_pc [
  | lock_first ↦ lock parent s.mutex_a >>= λ m. some (record s { mutex_a = m; main_pc = bump })
  | bump ↦ some (record s { a = s.a + 1; main_pc = lock_second })
  | lock_second ↦ lock parent s.mutex_b >>= λ m. some (record s { mutex_b = m; main_pc = add })
  | add ↦ some (record s { a = s.a + s.b; b = s.b + 1; main_pc = unlock_second })
  | unlock_second ↦ some (record s { mutex_b = free; main_pc = unlock_first })
  | unlock_first ↦ some (record s { mutex_a = free; main_pc = finished })
  | finished ↦ none
]

-- A statement of `another`.
unfoldable pub another_step : State → Option State
another_step s = elim s.another_pc [
  | lock_first ↦ lock child s.mutex_b >>= λ m. some (record s { mutex_b = m; another_pc = bump })
  | bump ↦ some (record s { b = s.b + 1; another_pc = lock_second })
  | lock_second ↦ lock child s.mutex_a >>= λ m. some (record s { mutex_a = m; another_pc = add })
  | add ↦ some (record s { b = s.b + s.a; a = s.a + 1; another_pc = unlock_second })
  | unlock_second ↦ some (record s { mutex_a = free; another_pc = unlock_first })
  | unlock_first ↦ some (record s { mutex_b = free; another_pc = finished })
  | finished ↦ none
]

pub data Step (s : State) : State → Type 0 where
  by_main : {t : State} → main_step s ≡ some t → Step s t
  by_another : {t : State} → another_step s ≡ some t → Step s t

pub data Reach : State → Type 0 where
  start : Reach init
  later : {s t : State} → Reach s → Step s t → Reach t
