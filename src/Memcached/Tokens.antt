-- ===== src/Memcached/Tokens.antt =====
-- memcached/server/session.h: SpaceSeparator, the token iterator over it, and Reader.
use linux_socket_test.Prelude.{
  ℕ, ◌+◌, ◌-◌, ◌*◌, ◌%◌, ◌^◌, List, [], ◌∷◌, Option, none, some, Bool, true, false, ◌==◌,
  if◌then◌else◌, leb, ◌&&◌, is_space, break_at,
}
use linux_socket_test.Memcached.Item.{to_int}

unfoldable pub skip_blanks : List ℕ → List ℕ
skip_blanks [] = []
skip_blanks (x ∷ xs) = if x == b' ' then skip_blanks xs else x ∷ xs

-- A position of the token iterator: the token there and the text behind it, or the end. A token is
-- never empty.
abbrev pub Tokens : Type 0
Tokens = Option (List ℕ × List ℕ)

-- What stands before the next blank, as a token; there is none in an empty text.
unfoldable pub cut_token : List ℕ → Tokens
cut_token [] = none
cut_token (x ∷ xs) = elim (break_at b' ' (x ∷ xs)) [
  | none ↦ some (x ∷ xs, [])
  | some (tok, after) ↦ some (tok, b' ' ∷ after)
]

-- `SpaceSeparator::operator()` at the start of the text; the text behind the token keeps its blank.
unfoldable pub next_token : List ℕ → Tokens
unfolding skip_blanks
next_token text = cut_token (skip_blanks text)

abbrev pub is_digit : ℕ → Bool
is_digit c = leb b'0' c && leb c b'9'

-- The digits at the start of a text: their value behind `acc`, and the text behind them.
unfoldable pub digits : ℕ → List ℕ → ℕ × List ℕ
digits acc [] = (acc, [])
digits acc (c ∷ cs) =
    let rest = digits (acc * 10 + (c - b'0')) cs in if is_digit c then rest else (acc, c ∷ cs)

-- The number that `strtoull` returns for a sign and a value: too large a value gives the largest
-- number, and a minus sign negates in 64 bits.
unfoldable pub signed_value : Bool → ℕ → ℕ
signed_value minus v =
    if leb (2 ^ 64) v then 2 ^ 64 - 1 else if minus then (2 ^ 64 - v) % 2 ^ 64 else v

-- `strtoull` behind the white space and the sign; with no digit there is no conversion.
unfoldable pub unsigned_part : Bool → List ℕ → Option (ℕ × List ℕ)
unsigned_part minus [] = none
unsigned_part minus (c ∷ cs) =
    if is_digit c
    then (let (v, after) = digits 0 (c ∷ cs) in some (signed_value minus v, after))
    else none

unfoldable pub sign_part : List ℕ → Option (ℕ × List ℕ)
sign_part [] = none
sign_part (c ∷ cs) =
    if c == b'-'
    then unsigned_part true cs
    else if c == b'+'
    then unsigned_part false cs
    else unsigned_part false (c ∷ cs)

-- `strtoull(text, &end, 10)`: the number and the text from `end` on, or no conversion. What follows
-- a token is a blank or the end of the line, which no number goes over, so the token is all the
-- text that matters.
unfoldable pub strtoull : List ℕ → Option (ℕ × List ℕ)
strtoull [] = none
strtoull (c ∷ cs) = let rest = strtoull cs in if is_space c then rest else sign_part (c ∷ cs)

-- `Reader::read<int>` at a position: the bits of the `int`, and the next position. It fails at the
-- end, and where the number does not end with the token.
unfoldable pub read : Tokens → Option (ℕ × Tokens)
read none = none
read (some (tok, after)) = elim (strtoull tok) [
  | none ↦ none
  | some (x, []) ↦ some (to_int x, next_token after)
  | some (x, _ ∷ _) ↦ none
]
