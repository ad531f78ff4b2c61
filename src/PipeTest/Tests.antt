-- ===== src/PipeTest/Tests.antt =====
-- A run in which one byte goes through the pipe.
use linux_socket_test.Prelude.{ℕ, ◌≡◌, ◌⊎◌, refl, List, [], codes, arith}
use linux_socket_test.PipeTest.{
  State, parent_closes_read, parent_writes_byte, parent_has_written, parent_closes_write,
  child_closes_write, child_reads, child_finds_end, child_prints, child_prints_line_feed,
  child_exits, Reach, start, later,
}
use linux_socket_test.PipeTest.Progress.{GoesOn, IsComplete, runs_finish}

abbrev text : List ℕ
text = codes "a"

-- The child has the byte, and the parent has written all.
abbrev half_way : (s : State) × Reach 1 text s
half_way = (
  _,
  later
      (later
        (later (later (later start (child_closes_write refl)) (parent_closes_read refl))
          (parent_writes_byte b'a' [] refl (omega arith)))
        (child_reads b'a' [] refl refl))
      (parent_has_written refl),
)

-- The child is gone, and the parent waits.
abbrev last : (s : State) × Reach 1 text s
last = (
  _,
  later
      (later
        (later (later (later half_way.1 (parent_closes_write refl)) (child_prints b'a' refl))
          (child_finds_end refl refl refl refl))
        (child_prints_line_feed refl))
      (child_exits refl),
)

out : last.0.out ≡ codes "a\n"
out = refl

runs_finish_example : GoesOn 1 text last.0 ⊎ IsComplete text last.0
runs_finish_example = runs_finish (omega arith) last.1
