-- ===== src/PipeTest.antt =====
-- pipe/pipe_test.cpp: a parent that writes a text into a pipe, and its child that prints what it reads.
-- The steps of the two processes are interleaved in any order.
pub mod Output
pub mod Progress
mod Tests
use linux_socket_test.Prelude.{
  ℕ, ◌+◌, ◌*◌, ◌<◌, ◌≡◌, List, [], ◌∷◌, ◌++◌, Bool, true, false, length,
}

-- Where the parent stands: before it closes its read end, in `write` with the bytes that are left,
-- before it closes its write end, in `wait`, behind `exit`.
pub data Parent : Type 0 where
  close_read : Parent
  writing : List ℕ → Parent
  close_write : Parent
  in_wait : Parent
  parent_gone : Parent

-- Where the child stands: before it closes its write end, before `read`, with a byte to print, before
-- the line feed, before it closes its read end, behind `_exit`.
pub data Child : Type 0 where
  close_unused : Child
  reading : Child
  printing : ℕ → Child
  print_line_feed : Child
  close_last : Child
  child_gone : Child

-- The bytes in the pipe, and what the child has printed.
pub record State : Type 0 where
  pub pipe : List ℕ
  pub out : List ℕ
  pub parent : Parent
  pub child : Child

-- The write end of each process is open until it is closed.
abbrev pub parent_writes : Parent → Bool
parent_writes close_read = true
parent_writes (writing rest) = true
parent_writes close_write = true
parent_writes in_wait = false
parent_writes parent_gone = false

abbrev pub child_writes : Child → Bool
child_writes close_unused = true
child_writes _ = false

-- Behind `fork`.
abbrev pub init : State
init = record { pipe = []; out = []; parent = close_read; child = close_unused }

-- The pipe holds `capacity` bytes; `text` is the argument of the program. `read` waits while the pipe
-- is empty and a write end is open, and finds the end of the file when none is.
pub data Step (capacity : ℕ) (text : List ℕ) (s : State) : State → Type 0 where
  parent_closes_read :
      s.parent ≡ close_read → Step capacity text s (record s { parent = writing text })
  parent_writes_byte :
      (b : ℕ) (rest : List ℕ)
      → s.parent ≡ writing (b ∷ rest)
      → length s.pipe < capacity
      → Step capacity text s (record s { pipe = s.pipe ++ b ∷ []; parent = writing rest })
  parent_has_written :
      s.parent ≡ writing [] → Step capacity text s (record s { parent = close_write })
  parent_closes_write :
      s.parent ≡ close_write → Step capacity text s (record s { parent = in_wait })
  parent_exits :
      s.parent ≡ in_wait
      → s.child ≡ child_gone
      → Step capacity text s (record s { parent = parent_gone })
  child_closes_write : s.child ≡ close_unused → Step capacity text s (record s { child = reading })
  child_reads :
      (b : ℕ) (rest : List ℕ)
      → s.child ≡ reading
      → s.pipe ≡ b ∷ rest
      → Step capacity text s (record s { pipe = rest; child = printing b })
  child_finds_end :
      s.child ≡ reading
      → s.pipe ≡ []
      → parent_writes s.parent ≡ false
      → child_writes s.child ≡ false
      → Step capacity text s (record s { child = print_line_feed })
  child_prints :
      (b : ℕ)
      → s.child ≡ printing b
      → Step capacity text s (record s { out = s.out ++ b ∷ []; child = reading })
  child_prints_line_feed :
      s.child ≡ print_line_feed
      → Step capacity text s (record s { out = s.out ++ 10 ∷ []; child = close_last })
  child_exits : s.child ≡ close_last → Step capacity text s (record s { child = child_gone })

pub data Reach (capacity : ℕ) (text : List ℕ) : State → Type 0 where
  start : Reach capacity text init
  later : {s t : State} → Reach capacity text s → Step capacity text s t → Reach capacity text t
