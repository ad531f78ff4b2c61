-- ===== src/PipeTest/Progress.antt =====
-- pipe/pipe_test.cpp: every run comes to its end, with the text printed.
use linux_socket_test.Prelude.{ℕ, ◌<◌, ◌≡◌, ◌⊎◌, inl, inr, refl, ◌∙◌, List, [], ◌∷◌, ◌++◌, arith}
use linux_socket_test.PipeTest.{
  Parent, close_read, writing, close_write, in_wait, parent_gone, Child, close_unused, reading,
  printing, print_line_feed, close_last, child_gone, State, Step, parent_closes_read,
  parent_writes_byte, parent_has_written, parent_closes_write, parent_exits, child_closes_write,
  child_reads, child_finds_end, child_prints, child_prints_line_feed, child_exits, Reach,
}
use linux_socket_test.PipeTest.Output.{Inv, work, step_works, printed, Reach-Inv}

-- Both processes are gone, and the text and a line feed are printed.
pub record IsComplete (text : List ℕ) (s : State) : Type 0 where
  pub parent_is_gone : s.parent ≡ parent_gone
  pub child_is_gone : s.child ≡ child_gone
  pub all_printed : s.out ≡ text ++ 10 ∷ []

-- Some process can make a step.
abbrev pub GoesOn : ℕ → List ℕ → State → Type 0
GoesOn capacity text s = (t : State) × Step capacity text s t × (work text t < work text s)

go_on :
    {capacity : ℕ} {text : List ℕ} {s t : State} → Step capacity text s t → GoesOn capacity text s
go_on {t} step = (t, step, step_works step)

-- The child waits for a byte that is not there.
empty-GoesOn :
    {capacity : ℕ} {text : List ℕ} {s : State} (p : Parent)
    → 0 < capacity
    → s.child ≡ reading
    → s.pipe ≡ []
    → s.parent ≡ p
    → GoesOn capacity text s
empty-GoesOn close_read room c e h = go_on (parent_closes_read h)
empty-GoesOn (writing []) room c e h = go_on (parent_has_written h)
empty-GoesOn (writing (b ∷ rest)) room c e h =
    go_on (parent_writes_byte b rest h (ground (arith, e)))
empty-GoesOn close_write room c e h = go_on (parent_closes_write h)
empty-GoesOn in_wait room c e h =
    go_on (child_finds_end c e (ground (arith, h)) (ground (arith, c)))
empty-GoesOn parent_gone room c e h =
    go_on (child_finds_end c e (ground (arith, h)) (ground (arith, c)))

reading-GoesOn :
    {capacity : ℕ} {text : List ℕ} {s : State} (l : List ℕ)
    → 0 < capacity
    → s.child ≡ reading
    → s.pipe ≡ l
    → GoesOn capacity text s
reading-GoesOn {s} [] room c e = empty-GoesOn s.parent room c e refl
reading-GoesOn (b ∷ rest) room c e = go_on (child_reads b rest c e)

gone-ends :
    {capacity : ℕ} {text : List ℕ} {s : State} (p : Parent)
    → Inv text s
    → s.child ≡ child_gone
    → s.parent ≡ p
    → GoesOn capacity text s ⊎ IsComplete text s
gone-ends in_wait v c h = inl (go_on (parent_exits h c))
gone-ends parent_gone v c h = inr (record {
  parent_is_gone = h;
  child_is_gone = c;
  all_printed = printed v (ground (arith, c)) (ground (arith, c)) ∙ ground (arith, c);
})
gone-ends close_read v c h = absurd (ground (arith, c, h, v.ended))
gone-ends (writing rest) v c h = absurd (ground (arith, c, h, v.ended))
gone-ends close_write v c h = absurd (ground (arith, c, h, v.ended))

child-cases :
    {capacity : ℕ} {text : List ℕ} {s : State} (c : Child)
    → 0 < capacity
    → Inv text s
    → s.child ≡ c
    → GoesOn capacity text s ⊎ IsComplete text s
child-cases close_unused room v e = inl (go_on (child_closes_write e))
child-cases {s} reading room v e = inl (reading-GoesOn s.pipe room e refl)
child-cases (printing b) room v e = inl (go_on (child_prints b e))
child-cases print_line_feed room v e = inl (go_on (child_prints_line_feed e))
child-cases close_last room v e = inl (go_on (child_exits e))
child-cases {s} child_gone room v e = gone-ends s.parent v e refl

-- However the two processes are interleaved and however small the pipe is, as long as they have not
-- both ended one of them can make a step, with less work left behind it; when both have ended, just the
-- argument of the program and a line feed have been printed.
pub runs_finish :
    {capacity : ℕ} {text : List ℕ} {s : State}
    → 0 < capacity
    → Reach capacity text s
    → GoesOn capacity text s ⊎ IsComplete text s
runs_finish {s} room r = child-cases s.child room (Reach-Inv r) refl
