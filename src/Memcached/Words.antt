-- ===== src/Memcached/Words.antt =====
-- The tokens of a command line that a client prints, and the numbers in it.
use linux_socket_test.Prelude.{
  ℕ, ◌+◌, ◌-◌, ◌*◌, ◌^◌, ◌≡◌, ◌<◌, ◌≤◌, refl, List, [], ◌∷◌, ◌++◌, some, arith, break_at-append,
  break_at-none, Free,
}
use linux_socket_test.Memcached.Item.{to_int}
use linux_socket_test.Memcached.Tokens.{
  cut_token, next_token, digits, signed_value, unsigned_part, sign_part, strtoull, read,
}

-- A word: at least one byte, and no blank.
abbrev pub IsWord : List ℕ → Type 0
IsWord [] = ⊥
IsWord (x ∷ xs) = Free b' ' (x ∷ xs)

pub next_token-word :
    (w rest : List ℕ) → IsWord w → next_token (w ++ b' ' ∷ rest) ≡ some (w, b' ' ∷ rest)
unfolding next_token cut_token
next_token-word [] rest h = absurd h
next_token-word (x ∷ xs) rest h = ground (arith, h.0, break_at-append b' ' (x ∷ xs) rest h)

pub next_token-last : (w : List ℕ) → IsWord w → next_token w ≡ some (w, [])
unfolding next_token cut_token
next_token-last [] h = absurd h
next_token-last (x ∷ xs) h = ground (arith, h.0, break_at-none b' ' (x ∷ xs) h)

pub next_token-blank : (text : List ℕ) → next_token (b' ' ∷ text) ≡ next_token text
unfolding next_token
next_token-blank text = refl

abbrev pub AreDigits : List ℕ → Type 0
AreDigits [] = Unit
AreDigits (c ∷ cs) = (48 ≤ c) × (c ≤ 57) × AreDigits cs

-- A decimal number: at least one digit.
abbrev pub IsNumber : List ℕ → Type 0
IsNumber [] = ⊥
IsNumber (c ∷ cs) = AreDigits (c ∷ cs)

-- The value of digits behind others of value `acc`.
unfoldable pub value_from : ℕ → List ℕ → ℕ
value_from acc [] = acc
value_from acc (c ∷ cs) = value_from (acc * 10 + (c - 48)) cs

abbrev pub number : List ℕ → ℕ
number ds = value_from 0 ds

digits-value_from : (acc : ℕ) (ds : List ℕ) → AreDigits ds → digits acc ds ≡ (value_from acc ds, [])
unfolding digits value_from
digits-value_from acc [] h = refl
digits-value_from acc (c ∷ cs) (lo, hi, hs) =
    ground (arith, lo, hi, digits-value_from (acc * 10 + (c - 48)) cs hs)

-- `strtoull` reads a decimal number whole.
pub strtoull-number :
    (ds : List ℕ) → IsNumber ds → number ds < 2 ^ 64 → strtoull ds ≡ some (number ds, [])
unfolding strtoull sign_part unsigned_part signed_value
strtoull-number [] h k = absurd h
strtoull-number (c ∷ cs) (lo, hi, hs) k =
    ground (arith, lo, hi, k, digits-value_from 0 (c ∷ cs) (lo, hi, hs))

IsNumber-IsWord : (ds : List ℕ) → IsNumber ds → IsWord ds
IsNumber-IsWord [] h = h
IsNumber-IsWord (c ∷ cs) (lo, hi, hs) = (omega arith, free cs hs)
  where
    free : (xs : List ℕ) → AreDigits xs → Free b' ' xs
    free [] h = tt
    free (x ∷ xs) (a, b, h) = (omega arith, free xs h)

-- Reader takes a number that fits an `int`, with another token behind it.
pub read-number :
    (ds rest : List ℕ)
    → IsNumber ds
    → number ds < 2 ^ 31
    → read (next_token (ds ++ b' ' ∷ rest)) ≡ some (number ds, next_token rest)
unfolding read
read-number ds rest h k =
    let small : to_int (number ds) ≡ number ds = omega arith in
    rw (next_token-word ds rest (IsNumber-IsWord ds h), read)
      (rw (strtoull-number ds h (omega arith)) (rw (small, next_token-blank rest)))

pub read-number_last :
    (ds : List ℕ)
    → IsNumber ds
    → number ds < 2 ^ 31
    → read (next_token ds) ≡ some (number ds, next_token [])
unfolding read
read-number_last ds h k =
    let small : to_int (number ds) ≡ number ds = omega arith in
    rw (next_token-last ds (IsNumber-IsWord ds h), read)
      (rw (strtoull-number ds h (omega arith)) (rw small))
