-- ===== src/PipeTest/Output.antt =====
-- pipe/pipe_test.cpp: where the bytes of the text are, and how much is left to do.
use linux_socket_test.Prelude.{
  ℕ, ◌+◌, ◌*◌, ◌<◌, ◌≡◌, refl, sym, ap, ◌∙◌, List, [], ◌∷◌, ◌++◌, Bool, true, false, length,
  length-append, append-nil, append_assoc, arith,
}
use linux_socket_test.PipeTest.{
  Parent, close_read, writing, close_write, in_wait, parent_gone, Child, close_unused, reading,
  printing, print_line_feed, close_last, child_gone, State, parent_writes, Step, parent_closes_read,
  parent_writes_byte, parent_has_written, parent_closes_write, parent_exits, child_closes_write,
  child_reads, child_finds_end, child_prints, child_prints_line_feed, child_exits, Reach, start,
  later,
}

-- The bytes that the parent still has to write, and those that the child has in its hand.
abbrev pub to_write : List ℕ → Parent → List ℕ
to_write text close_read = text
to_write text (writing rest) = rest
to_write text _ = []

abbrev pub in_hand : Child → List ℕ
in_hand (printing b) = b ∷ []
in_hand _ = []

-- Has the child found the end of the file?
abbrev pub at_end : Child → Bool
at_end print_line_feed = true
at_end close_last = true
at_end child_gone = true
at_end _ = false

abbrev pub line_feed : Child → List ℕ
line_feed close_last = 10 ∷ []
line_feed child_gone = 10 ∷ []
line_feed _ = []

-- No byte is lost, doubled or moved on its way.
pub record Inv (text : List ℕ) (s : State) : Type 0 where
  pub whole :
      s.out ++ (in_hand s.child ++ (s.pipe ++ to_write text s.parent)) ≡ text ++ line_feed s.child
  pub ended : at_end s.child ≡ true → (s.pipe ≡ []) × (parent_writes s.parent ≡ false)

-- The steps that are left, in the worst case.
abbrev parent_work : List ℕ → Parent → ℕ
parent_work text close_read = 3 * length text + 4
parent_work text (writing rest) = 3 * length rest + 3
parent_work text close_write = 2
parent_work text in_wait = 1
parent_work text parent_gone = 0

abbrev child_work : Child → ℕ
child_work close_unused = 5
child_work reading = 4
child_work (printing b) = 5
child_work print_line_feed = 3
child_work close_last = 2
child_work child_gone = 0

abbrev pub work : List ℕ → State → ℕ
work text s = parent_work text s.parent + child_work s.child + 2 * length s.pipe

-- Every step leaves less to do, so that every run comes to an end.
pub step_works :
    {capacity : ℕ} {text : List ℕ} {s t : State}
    → Step capacity text s t
    → work text t < work text s
step_works (parent_closes_read e) = ground (arith, e)
step_works {s} (parent_writes_byte b rest e h) = ground (arith, e, length-append s.pipe (b ∷ []))
step_works (parent_has_written e) = ground (arith, e)
step_works (parent_closes_write e) = ground (arith, e)
step_works (parent_exits e f) = ground (arith, e)
step_works (child_closes_write e) = ground (arith, e)
step_works (child_reads b rest e p) = ground (arith, e, p)
step_works (child_finds_end e p q r) = ground (arith, e)
step_works (child_prints b e) = ground (arith, e)
step_works (child_prints_line_feed e) = ground (arith, e)
step_works (child_exits e) = ground (arith, e)

nothing_left : (text : List ℕ) (p : Parent) → parent_writes p ≡ false → to_write text p ≡ []
nothing_left text close_read h = cc
nothing_left text (writing rest) h = cc
nothing_left text close_write h = refl
nothing_left text in_wait h = refl
nothing_left text parent_gone h = refl

-- At the end of the file everything has been printed.
pub printed :
    {text : List ℕ} {s : State}
    → Inv text s
    → at_end s.child ≡ true
    → in_hand s.child ≡ []
    → s.out ≡ text ++ line_feed s.child
printed {text} {s} v h empty =
    let (p, q) = v.ended h in
    let rest : in_hand s.child ++ (s.pipe ++ to_write text s.parent) ≡ [] =
      rw (empty, p, nothing_left text s.parent q) refl in
    sym (append-nil s.out) ∙ ap (λ l. s.out ++ l) (sym rest) ∙ v.whole

Step-Inv :
    {capacity : ℕ} {text : List ℕ} {s t : State} → Inv text s → Step capacity text s t → Inv text t
Step-Inv {s} v (parent_closes_read e) = record {
  whole = ground (arith, e, v.whole);
  ended = λ h. ground (arith, e, v.ended h);
}
Step-Inv {s} v (parent_writes_byte b rest e h) = record {
  whole = rw (append_assoc s.pipe (b ∷ []) rest) (ground (arith, e, v.whole));
  ended = λ h. ground (arith, e, v.ended h);
}
Step-Inv {s} v (parent_has_written e) = record {
  whole = ground (arith, e, v.whole);
  ended = λ h. ground (arith, e, v.ended h);
}
Step-Inv {s} v (parent_closes_write e) = record {
  whole = ground (arith, e, v.whole);
  ended = λ h. ground (arith, e, v.ended h);
}
Step-Inv {s} v (parent_exits e f) = record {
  whole = ground (arith, e, v.whole);
  ended = λ h. ground (arith, e, v.ended h);
}
Step-Inv {s} v (child_closes_write e) = record {
  whole = ground (arith, e, v.whole);
  ended = λ h. ground (arith, h);
}
Step-Inv {s} v (child_reads b rest e p) = record {
  whole = ground (arith, e, p, v.whole);
  ended = λ h. ground (arith, h);
}
Step-Inv {s} v (child_finds_end e p q r) = record {
  whole = ground (arith, e, v.whole);
  ended = λ h. (p, q);
}
Step-Inv {text} {s} v (child_prints b e) = record {
  whole =
      append_assoc s.out (b ∷ []) (s.pipe ++ to_write text s.parent) ∙ ground (arith, e, v.whole);
  ended = λ h. ground (arith, h);
}
Step-Inv {text} {s} v (child_prints_line_feed e) = record {
  whole =
      let end : at_end s.child ≡ true = ground (arith, e) in
      let (p, q) = v.ended end in
      let out : s.out ≡ text =
        printed v end (ground (arith, e)) ∙ ground (arith, e, append-nil text) in
      rw (p, nothing_left text s.parent q, out) (append-nil (text ++ 10 ∷ []));
  ended = λ h. v.ended (ground (arith, e));
}
Step-Inv {s} v (child_exits e) = record {
  whole = ground (arith, e, v.whole);
  ended = λ h. v.ended (ground (arith, e));
}

pub Reach-Inv : {capacity : ℕ} {text : List ℕ} {s : State} → Reach capacity text s → Inv text s
Reach-Inv {text} start = record { whole = sym (append-nil text); ended = λ h. cc }
Reach-Inv (later r step) = Step-Inv (Reach-Inv r) step
