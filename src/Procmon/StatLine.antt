-- ===== src/Procmon/StatLine.antt =====
-- procmon/procmon.cpp: StatData::parse on the line that the kernel writes.
use linux_socket_test.Prelude.{
  ℕ, suc, ◌≡◌, refl, sym, ap, ◌∙◌, List, ◌∷◌, ◌++◌, true, false, is_space, arith,
}
use linux_socket_test.Prelude.Int.{ℤ, pos, negsuc, fits, limit}
use linux_socket_test.Prelude.Decimal.{show_nat}
use linux_socket_test.Prelude.Scan.{
  skip_spaces, scan_int, show_int, Stops, show_nat-digit, scan-show_int, skip-show_int,
}
use linux_socket_test.Procmon.Stat.{
  Stream, Read, ◌>>=◌, get_char, get_number, has_number, extracted,
}

abbrev pub stream : List ℕ → Stream
stream cs = record { rest = cs; failed = false }

-- A blank and a number, in front of more.
abbrev pub spaced : ℤ → List ℕ → List ℕ
spaced z more = 32 ∷ show_int z ++ more

has_number-shown : (z : ℤ) (more : List ℕ) → has_number (show_int z ++ more) ≡ true
unfolding has_number show_int
has_number-shown (pos n) more = let (c, cs, e, d) = show_nat-digit n in rw e (ground (arith, d))
has_number-shown (negsuc n) more =
    let (c, cs, e, d) = show_nat-digit (suc n) in rw e (ground (arith, d))

pub show_int-cons :
    (z : ℤ) (more : List ℕ) → (c : ℕ) × (cs : List ℕ) × (show_int z ++ more ≡ c ∷ cs)
unfolding show_int
show_int-cons (pos n) more =
    let (c, cs, e, d) = show_nat-digit n in (c, cs ++ more, ap (λ s. s ++ more) e)
show_int-cons (negsuc n) more = (b'-', show_nat (suc n) ++ more, refl)

get_number-cons :
    (w : ℕ) (old : ℤ) (c : ℕ) (cs text : List ℕ)
    → skip_spaces text ≡ c ∷ cs
    → get_number w old (stream text) ≡ extracted w (has_number (c ∷ cs)) (scan_int (c ∷ cs))
unfolding get_number
get_number-cons w old c cs text h = rw h refl

-- A number that is printed behind a blank is read as far as its range allows.
get_number-extracted :
    (w : ℕ) (old z : ℤ) (more : List ℕ)
    → Stops more
    → get_number w old (stream (spaced z more)) ≡ extracted w true (z, more)
unfolding skip_spaces
get_number-extracted w old z more stops =
    let (c, cs, e) = show_int-cons z more in
    get_number-cons w old c cs (spaced z more) (skip-show_int z more ∙ e)
    ∙ ap (λ s. extracted w (has_number s) (scan_int s)) (sym e)
    ∙ rw (has_number-shown z more) (ap (extracted w true) (scan-show_int z more stops))

-- In range it is read, and a chain of extractions goes on behind it.
pub get_number-then :
    {A : Type 0} (f : ℤ → Read A) (w : ℕ) (old z : ℤ) (more : List ℕ)
    → fits w z ≡ true
    → Stops more
    → (get_number w old >>= f) (stream (spaced z more)) ≡ f z (stream more)
unfolding ◌>>=◌ extracted
get_number-then f w old z more small stops =
    ap (λ r. f r.0 r.1) (get_number-extracted w old z more stops) ∙ rw small refl

-- A number out of range leaves the end of the range and the failbit.
pub get_number-overflows :
    {A : Type 0} (f : ℤ → Read A) (w : ℕ) (old z : ℤ) (more : List ℕ)
    → fits w z ≡ false
    → Stops more
    → (get_number w old >>= f) (stream (spaced z more))
      ≡ f (limit w z) (record { rest = more; failed = true })
unfolding ◌>>=◌ extracted
get_number-overflows f w old z more large stops =
    ap (λ r. f r.0 r.1) (get_number-extracted w old z more stops) ∙ rw large refl

-- Behind the failbit nothing is read.
pub get_number-failed :
    {A : Type 0} (f : ℤ → Read A) (w : ℕ) (old : ℤ) (more : List ℕ)
    → (get_number w old >>= f) (record { rest = more; failed = true })
      ≡ f old (record { rest = more; failed = true })
unfolding ◌>>=◌ get_number
get_number-failed f w old more = refl

pub get_char-then :
    {A : Type 0} (f : ℕ → Read A) (old c : ℕ) (more : List ℕ)
    → is_space c ≡ false
    → (get_char old >>= f) (stream (32 ∷ c ∷ more)) ≡ f c (stream more)
unfolding ◌>>=◌ get_char skip_spaces
get_char-then f old c more h = rw h refl
