-- ===== src/Prelude/Scan.antt =====
-- Numbers in texts: how `atoi` and a stream read them, and that they read what is printed.
use linux_socket_test.Prelude.{
  ℕ, zero, suc, ◌+◌, ◌-◌, ◌*◌, ◌/◌, ◌%◌, ◌^◌, ◌<◌, ◌≡◌, refl, ap, sym, ◌∙◌, List, [], ◌∷◌, ◌++◌,
  Bool, true, false, ◌&&◌, ltb, leb, ◌==◌, if◌then◌else◌, arith, is_space,
}
use linux_socket_test.Prelude.Int.{ℤ, pos, negsuc, neg_nat, fits, limit, wrap}
use linux_socket_test.Prelude.Decimal.{show_digits, show_nat}
use native.Mathlib.Decide.{dec_lt}

abbrev pub is_digit : ℕ → Bool
is_digit c = leb 48 c && leb c 57

-- The number that the digits at the front of a text stand for, behind a number that has been read,
-- and what follows them.
unfoldable pub scan_digits : ℕ → List ℕ → ℕ × List ℕ
scan_digits n [] = (n, [])
scan_digits n (c ∷ cs) =
    let rest = scan_digits (n * 10 + (c - 48)) cs in if is_digit c then rest else (n, c ∷ cs)

unfoldable pub skip_spaces : List ℕ → List ℕ
skip_spaces [] = []
skip_spaces (c ∷ cs) = let rest = skip_spaces cs in if is_space c then rest else c ∷ cs

abbrev minus : ℕ × List ℕ → ℤ × List ℕ
minus (n, rest) = (neg_nat n, rest)

abbrev plus : ℕ × List ℕ → ℤ × List ℕ
plus (n, rest) = (pos n, rest)

-- An optional sign and digits.
unfoldable pub scan_int : List ℕ → ℤ × List ℕ
scan_int [] = (pos 0, [])
scan_int (c ∷ cs) =
    if c == b'-'
    then minus (scan_digits 0 cs)
    else if c == b'+'
    then plus (scan_digits 0 cs)
    else plus (scan_digits 0 (c ∷ cs))

-- `atol` and `atoi` of a C string, as `strtol` and its conversion to `int`; a zero byte is no digit.
unfoldable pub atol : List ℕ → ℤ
atol cs = let z = (scan_int (skip_spaces cs)).0 in if fits 63 z then z else limit 63 z

abbrev pub atoi : List ℕ → ℤ
atoi cs = wrap 32 (atol cs)

-- `std::to_string`, and "%d".
unfoldable pub show_int : ℤ → List ℕ
show_int (pos n) = show_nat n
show_int (negsuc n) = b'-' ∷ show_nat (suc n)

-- No digit at the front.
abbrev pub Stops : List ℕ → Type 0
Stops [] = Unit
Stops (c ∷ cs) = is_digit c ≡ false

scan_digits_stop : (n : ℕ) (rest : List ℕ) → Stops rest → scan_digits n rest ≡ (n, rest)
unfolding scan_digits
scan_digits_stop n [] h = refl
scan_digits_stop n (c ∷ cs) h = rw h

scan-show_digits :
    (fuel n : ℕ) (acc rest : List ℕ)
    → n < fuel
    → scan_digits 0 (show_digits fuel n acc ++ rest) ≡ scan_digits n (acc ++ rest)
unfolding show_digits scan_digits
scan-show_digits zero n acc rest h = absurd (omega arith)
scan-show_digits (suc fuel) n acc rest h = elim (dec_lt n 10) [
  | yes small ↦ ground (arith, small)
  | no large ↦
      let ih = scan-show_digits fuel (n / 10) ((48 + n % 10) ∷ acc) rest (omega arith) in
      let e : show_digits (suc fuel) n acc ≡ show_digits fuel (n / 10) ((48 + n % 10) ∷ acc) =
        ground (arith, large) in
      let v : n / 10 * 10 + (48 + n % 10 - 48) ≡ n = omega arith in
      let digit : is_digit (48 + n % 10) ≡ true = ground arith in
      rw e (ih ∙ rw digit (ap (λ k. scan_digits k (acc ++ rest)) v))
]

pub scan-show_nat :
    (n : ℕ) (rest : List ℕ) → Stops rest → scan_digits 0 (show_nat n ++ rest) ≡ (n, rest)
unfolding show_nat
scan-show_nat n rest h =
    scan-show_digits (n + 1) n [] rest (omega arith) ∙ scan_digits_stop n rest h

show_digits-digit :
    (fuel n : ℕ) (acc : List ℕ)
    → n < fuel
    → (c : ℕ) × (cs : List ℕ) × (show_digits fuel n acc ≡ c ∷ cs) × (is_digit c ≡ true)
unfolding show_digits
show_digits-digit zero n acc h = absurd (omega arith)
show_digits-digit (suc fuel) n acc h = elim (dec_lt n 10) [
  | yes small ↦ (48 + n, acc, ground (arith, small), ground (arith, small))
  | no large ↦
      let (c, cs, e, d) = show_digits-digit fuel (n / 10) ((48 + n % 10) ∷ acc) (omega arith) in
      (c, cs, ground (arith, large, e), d)
]

-- What is printed starts with a digit.
pub show_nat-digit : (n : ℕ) → (c : ℕ) × (cs : List ℕ) × (show_nat n ≡ c ∷ cs) × (is_digit c ≡ true)
unfolding show_nat
show_nat-digit n = show_digits-digit (n + 1) n [] (omega arith)

scan_int-digit :
    (c : ℕ) (cs : List ℕ) → is_digit c ≡ true → scan_int (c ∷ cs) ≡ plus (scan_digits 0 (c ∷ cs))
unfolding scan_int
scan_int-digit c cs h =
    let a : (c == b'-') ≡ false = ground arith in
    let b : (c == b'+') ≡ false = ground arith in rw (a, b) refl

scan_int-minus : (cs : List ℕ) → scan_int (b'-' ∷ cs) ≡ minus (scan_digits 0 cs)
unfolding scan_int
scan_int-minus cs = refl

-- Reading gives back the number that was printed.
pub scan-show_int : (z : ℤ) (rest : List ℕ) → Stops rest → scan_int (show_int z ++ rest) ≡ (z, rest)
unfolding show_int
scan-show_int (pos n) rest h =
    let (c, cs, e, d) = show_nat-digit n in
    ap (λ s. scan_int (s ++ rest)) e
    ∙ scan_int-digit c (cs ++ rest) d
    ∙ ap (λ s. plus (scan_digits 0 (s ++ rest))) (sym e)
    ∙ ap plus (scan-show_nat n rest h)
scan-show_int (negsuc n) rest h =
    scan_int-minus (show_nat (suc n) ++ rest) ∙ ap minus (scan-show_nat (suc n) rest h)

skip_spaces-digit : (c : ℕ) (cs : List ℕ) → is_space c ≡ false → skip_spaces (c ∷ cs) ≡ c ∷ cs
unfolding skip_spaces
skip_spaces-digit c cs h = rw h

pub skip-show_int : (z : ℤ) (rest : List ℕ) → skip_spaces (show_int z ++ rest) ≡ show_int z ++ rest
unfolding show_int
skip-show_int (pos n) rest =
    let (c, cs, e, d) = show_nat-digit n in rw e (skip_spaces-digit c (cs ++ rest) (ground arith))
skip-show_int (negsuc n) rest = skip_spaces-digit b'-' (show_nat (suc n) ++ rest) refl

pub atol-show_int :
    (z : ℤ) (rest : List ℕ) → fits 63 z ≡ true → Stops rest → atol (show_int z ++ rest) ≡ z
unfolding atol
atol-show_int z rest h stops = rw (skip-show_int z rest) (rw (scan-show_int z rest stops) (rw h))

pub wrap-fits : (z : ℤ) → fits 31 z ≡ true → wrap 32 z ≡ z
wrap-fits (pos n) h = ground arith
wrap-fits (negsuc n) h =
    let e : 2 ^ 32 - (2 ^ 32 - 1 - n % 2 ^ 32) ≡ suc n = ground arith in
    let large : ltb (2 ^ 32 - 1 - n % 2 ^ 32) (2 ^ 31) ≡ false = ground arith in
    rw large (ap neg_nat e)

fits_wider : (z : ℤ) → fits 31 z ≡ true → fits 63 z ≡ true
fits_wider (pos n) h = ground arith
fits_wider (negsuc n) h = ground arith

pub atoi-show_int :
    (z : ℤ) (rest : List ℕ) → fits 31 z ≡ true → Stops rest → atoi (show_int z ++ rest) ≡ z
atoi-show_int z rest h stops =
    ap (wrap 32) (atol-show_int z rest (fits_wider z h) stops) ∙ wrap-fits z h
