-- ===== src/EventRot13/Lines.antt =====
-- libevent_test/simper_rot13_server.cpp: what is answered to the bytes that have arrived.
use linux_socket_test.Prelude.{
  ℕ, zero, suc, ◌≤◌, ◌<◌, ◌≡◌, refl, ap, ap₂, sym, ◌∙◌, List, [], ◌∷◌, ◌++◌, some, true, false,
  if◌then◌else◌, arith, leb, map, length, length-drop, length-append, take, drop, take-append-drop,
  break_at, break_at-append, break_at-none, Free, append_assoc, append-nil,
}
use native.Mathlib.Decide.{dec_lt}
use linux_socket_test.Rot13.{rot13_char}
use linux_socket_test.EventRot13.{
  EvBufferOps, max_line, chunk, echo_lines, drain, finish_long, readcb,
}

-- The lines with their ends, one behind the other.
unfoldable pub join : List (List ℕ) → List ℕ
join [] = []
join (l ∷ ls) = l ++ 10 ∷ join ls

abbrev pub AreLines : List (List ℕ) → Type 0
AreLines [] = Unit
AreLines (l ∷ ls) = Free 10 l × AreLines ls

map-append : (f : ℕ → ℕ) (xs ys : List ℕ) → map f (xs ++ ys) ≡ map f xs ++ map f ys
map-append f [] ys = refl
map-append f (x ∷ xs) ys = ap (λ l. f x ∷ l) (map-append f xs ys)

nil_of_length : (xs : List ℕ) → length xs ≡ 0 → xs ≡ []
nil_of_length [] h = refl
nil_of_length (x ∷ xs) h = absurd (omega (arith, h))

length-join : (ls : List (List ℕ)) → length ls ≤ length (join ls)
unfolding join
length-join [] = omega arith
length-join (l ∷ ls) = omega (arith, length-join ls, length-append l (10 ∷ join ls))

module _ (m : EvBufferOps) where
  open m use {
    Buffer, content, readln, remove, add, readln-none, readln-some, remove-content, content-add,
  }

  line_out :
      (o : Buffer) (l js : List ℕ)
      → content (add (add o (map rot13_char l)) (10 ∷ [])) ++ map rot13_char js
        ≡ content o ++ map rot13_char (l ++ 10 ∷ js)
  unfolding rot13_char
  line_out o l js =
      let ls = map rot13_char l in
      let rest = map rot13_char js in
      ap (λ x. x ++ rest)
        (content-add (add o ls) (10 ∷ []) ∙ ap (λ x. x ++ 10 ∷ []) (content-add o ls))
      ∙ append_assoc (content o ++ ls) (10 ∷ []) rest
      ∙ append_assoc (content o) ls (10 ∷ rest)
      ∙ ap (λ x. content o ++ x) (sym (map-append rot13_char l (10 ∷ js)))

  chunk_out :
      (o : Buffer) (xs : List ℕ) (n : ℕ)
      → content (add o (map rot13_char (take n xs))) ++ map rot13_char (drop n xs)
        ≡ content o ++ map rot13_char xs
  chunk_out o xs n =
      ap (λ x. x ++ map rot13_char (drop n xs)) (content-add o (map rot13_char (take n xs)))
      ∙ append_assoc (content o) (map rot13_char (take n xs)) (map rot13_char (drop n xs))
      ∙ ap (λ x. content o ++ x)
          (sym (map-append rot13_char (take n xs) (drop n xs))
            ∙ ap (map rot13_char) (take-append-drop n xs))

  echo_lines-lines :
      (ls : List (List ℕ)) (rest : List ℕ) (fuel : ℕ) (i o : Buffer)
      → AreLines ls
      → Free 10 rest
      → content i ≡ join ls ++ rest
      → length ls < fuel
      → (i' o' : Buffer) × (echo_lines m fuel i o ≡ some (i', o'))
        × (content i' ≡ rest)
        × (content o' ≡ content o ++ map rot13_char (join ls))
  unfolding echo_lines join rot13_char
  echo_lines-lines ls rest zero i o lines free e enough = absurd (omega (arith, enough))
  echo_lines-lines [] rest (suc fuel) i o lines free e enough =
      let done = readln-none i (ap (break_at 10) e ∙ break_at-none 10 rest free) in
      (i, o, ground (arith, done), e, sym (append-nil (content o)))
  echo_lines-lines (l ∷ ls) rest (suc fuel) i o lines free e enough =
      let more = join ls ++ rest in
      let here = e ∙ append_assoc l (10 ∷ join ls) rest in
      let (b, line, left) =
        readln-some i l more (ap (break_at 10) here ∙ break_at-append 10 l more (lines.0)) in
      let o₁ = add (add o (map rot13_char l)) (10 ∷ []) in
      let (i', o', steps, kept, out) =
        echo_lines-lines ls rest fuel b o₁ (lines.1) free left (omega (arith, enough)) in
      (i', o', ground (arith, line, steps), kept, out ∙ line_out o l (join ls))

  drain-all :
      (fuel : ℕ) (i o : Buffer)
      → length (content i) < fuel
      → (i' o' : Buffer) × (drain m fuel i o ≡ some (i', o'))
        × (content i' ≡ [])
        × (content o' ≡ content o ++ map rot13_char (content i))
  unfolding drain
  drain-all zero i o enough = absurd (omega (arith, enough))
  drain-all (suc fuel) i o enough = elim (dec_lt 0 (length (content i))) [
    | yes more ↦
        let (buf, left) = remove-content i chunk in
        let rest = (remove i chunk).1 in
        let o₁ = add o (map rot13_char ((remove i chunk).0)) in
        let (i', o', steps, gone, out) =
          drain-all fuel rest o₁
            (omega (arith, enough, more, ap length left, length-drop chunk (content i))) in
        let bytes =
          ap₂ (λ x y. content (add o (map rot13_char x)) ++ map rot13_char y) buf left
          ∙ chunk_out o (content i) chunk in
        (i', o', ground (arith, more, steps), gone, out ∙ bytes)
    | no all ↦
        let nothing = nil_of_length (content i) (omega (arith, all)) in
        (
          i,
          o,
          ground (arith, all),
          nothing,
          sym (ap (λ x. content o ++ map rot13_char x) nothing ∙ append-nil (content o)),
        )
  ]

  -- `readcb` answers every line that has arrived with its rot13, and keeps what follows the last line
  -- end, as far as this is shorter than `MAX_LINE`; where it is not, it is answered too, with a line
  -- end behind it that was not sent. Fuel for all the bytes is enough.
  pub readcb_answers :
      (ls : List (List ℕ)) (rest : List ℕ) (fuel : ℕ) (i o : Buffer)
      → AreLines ls
      → Free 10 rest
      → content i ≡ join ls ++ rest
      → length (content i) < fuel
      → (i' o' : Buffer) × (readcb m fuel i o ≡ some (i', o'))
        × (content i' ≡ (if leb max_line (length rest) then [] else rest))
        × (content o'
            ≡ content o
              ++ map rot13_char (join ls)
              ++ (if leb max_line (length rest) then map rot13_char rest ++ 10 ∷ [] else []))
  unfolding readcb finish_long
  readcb_answers ls rest fuel i o lines free e enough =
      let few = length-join ls in
      let (i₁, o₁, steps, kept, out) =
        echo_lines-lines ls rest fuel i o lines free e
          (omega (arith, few, enough, ap length e, length-append (join ls) rest)) in
      let same = ap length kept in
      elim (dec_lt (length rest) max_line) [
        | yes short ↦
            let test : leb max_line (length rest) ≡ false = ground (arith, short) in
            (
              i₁,
              o₁,
              ground (arith, steps, same, short),
              rw test kept,
              rw test (out ∙ sym (append-nil (content o ++ map rot13_char (join ls)))),
            )
        | no long ↦
            let (i₂, o₂, drained, gone, out') =
              drain-all fuel i₁ o₁
                (omega (arith, enough, same, ap length e, length-append (join ls) rest)) in
            let test : leb max_line (length rest) ≡ true = ground (arith, long) in
            let bytes =
              content-add o₂ (10 ∷ [])
              ∙ ap (λ x. x ++ 10 ∷ []) (out' ∙ ap₂ (λ x y. x ++ map rot13_char y) out kept)
              ∙ append_assoc (content o ++ map rot13_char (join ls)) (map rot13_char rest)
                  (10 ∷ []) in
            (
              i₂,
              add o₂ (10 ∷ []),
              ground (arith, steps, same, long, drained),
              rw test gone,
              rw test bytes,
            )
      ]
