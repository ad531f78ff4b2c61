-- ===== src/EventRot13/Tests.antt =====
-- A run of the callback, and its theorem at two lines and a rest.
use linux_socket_test.Prelude.{
  ℕ, ◌≡◌, refl, List, [], ◌∷◌, ◌++◌, some, arith, codes, map, leb, if◌then◌else◌, break_at,
}
use linux_socket_test.Rot13.{rot13_char}
use linux_socket_test.EventRot13.{list_buffer, max_line, readcb, echo_lines, finish_long, drain}
use linux_socket_test.EventRot13.Lines.{join, readcb_answers}

abbrev lines : List (List ℕ)
lines = codes "abc" ∷ codes "x" ∷ []

abbrev arrived : List ℕ
arrived = codes "abc\nx\nrest"

answered : readcb list_buffer 20 arrived [] ≡ some (codes "rest", codes "nop\nk\n")
unfolding readcb echo_lines finish_long drain rot13_char break_at
answered = refl

whole : arrived ≡ join lines ++ codes "rest"
unfolding join
whole = refl

readcb_answers_example :
    (i' o' : List ℕ) × (readcb list_buffer 20 arrived (codes "!") ≡ some (i', o'))
    × (i' ≡ (if leb max_line 4 then [] else codes "rest"))
    × (o'
        ≡ codes "!"
          ++ map rot13_char (join lines)
          ++ (if leb max_line 4 then map rot13_char (codes "rest") ++ 10 ∷ [] else []))
readcb_answers_example =
    readcb_answers list_buffer lines (codes "rest") 20 arrived (codes "!")
      (omega arith, (omega arith, tt)) (omega arith) whole (omega arith)
