-- ===== src/Prelude/Bytes.antt =====
-- Byte strings: the code of a text literal, comparison, and the searches of the standard library.
use Prim.Native.Char.{code}
use Prim.Native.String.{String}
use Prim.Native.Nat.{ℕ, suc, ◌+◌, ◌-◌, ◌≤◌}
use mathlib.Core.Path.{◌≡◌, refl, ap, sym, ◌∙◌}
use mathlib.Core.Logic.{◌≢◌, ◌↔◌}
use mathlib.Core.Bool.{Bool, true, false, ◌&&◌, ◌||◌}
use mathlib.Core.Option.{Option, none, some}
use mathlib.Core.List.{List, [], ◌∷◌, ◌++◌}
use native.Mathlib.Omega.{arith}
use linux_socket_test.Prelude.Tests.{◌==◌, leb, if◌then◌else◌}
use linux_socket_test.Prelude.Lists.{length}

-- The code points of a text: its bytes, if it is ASCII.
abbrev pub codes : String → List ℕ
codes String.[] = []
codes (String.◌∷◌ c s) = code c ∷ codes s

unfoldable pub eq_bytes : List ℕ → List ℕ → Bool
eq_bytes [] [] = true
eq_bytes [] (y ∷ ys) = false
eq_bytes (x ∷ xs) [] = false
eq_bytes (x ∷ xs) (y ∷ ys) = x == y && eq_bytes xs ys

pub eq_bytes_refl : (xs : List ℕ) → eq_bytes xs xs ≡ true
unfolding eq_bytes
eq_bytes_refl [] = refl
eq_bytes_refl (x ∷ xs) = ground (arith, eq_bytes_refl xs)

pub eq_bytes→eq : (xs ys : List ℕ) → eq_bytes xs ys ≡ true → xs ≡ ys
unfolding eq_bytes
eq_bytes→eq [] [] h = refl
eq_bytes→eq [] (y ∷ ys) h = cc
eq_bytes→eq (x ∷ xs) [] h = cc
eq_bytes→eq (x ∷ xs) (y ∷ ys) h = ground (arith, eq_bytes→eq xs ys)

pub eq_bytes_iff : (xs ys : List ℕ) → (eq_bytes xs ys ≡ true) ↔ (xs ≡ ys)
eq_bytes_iff xs ys = (eq_bytes→eq xs ys, λ e. ap (eq_bytes xs) (sym e) ∙ eq_bytes_refl xs)

-- No byte of the list is `c`.
abbrev pub Free : ℕ → List ℕ → Type 0
Free c [] = Unit
Free c (x ∷ xs) = (x ≢ c) × Free c xs

pub Free-append : (c : ℕ) (xs ys : List ℕ) → Free c xs → Free c ys → Free c (xs ++ ys)
Free-append c [] ys h k = k
Free-append c (x ∷ xs) ys h k = (h.0, Free-append c xs ys h.1 k)

-- `std::find` for a byte: what stands before its first occurrence, and what stands behind it.
unfoldable pub break_at : ℕ → List ℕ → Option (List ℕ × List ℕ)
break_at c [] = none
break_at c (x ∷ xs) =
    let rest : Option (List ℕ × List ℕ) = elim (break_at c xs) [
      | none ↦ none
      | some (l, r) ↦ some (x ∷ l, r)
    ] in
    if x == c then some ([], xs) else rest

pub break_at-append : (c : ℕ) (l r : List ℕ) → Free c l → break_at c (l ++ c ∷ r) ≡ some (l, r)
unfolding break_at
break_at-append c [] r h = ground arith
break_at-append c (x ∷ l) r h = ground (arith, h.0, break_at-append c l r h.1)

pub break_at-none : (c : ℕ) (l : List ℕ) → Free c l → break_at c l ≡ none
unfolding break_at
break_at-none c [] h = refl
break_at-none c (x ∷ l) h = ground (arith, h.0, break_at-none c l h.1)

starts_lf : List ℕ → Bool
starts_lf [] = false
starts_lf (x ∷ xs) = x == 10

-- The position of the first "\r\n".
unfoldable pub first_crlf : List ℕ → Option ℕ
unfolding starts_lf
first_crlf [] = none
first_crlf (x ∷ xs) =
    let rest : Option ℕ = elim (first_crlf xs) [ none ↦ none | some i ↦ some (suc i) ] in
    if x == 13 && starts_lf xs then some 0 else rest

pub first_crlf-append : (l r : List ℕ) → Free 13 l → first_crlf (l ++ 13 ∷ 10 ∷ r) ≡ some (length l)
unfolding first_crlf
first_crlf-append [] r h = refl
first_crlf-append (x ∷ l) r h = ground (arith, h.0, first_crlf-append l r h.1)

-- A line end of which only the first byte is there.
pub first_crlf-cut : (l : List ℕ) → Free 13 l → first_crlf (l ++ 13 ∷ []) ≡ none
unfolding first_crlf
first_crlf-cut [] h = refl
first_crlf-cut (x ∷ l) h = ground (arith, h.0, first_crlf-cut l h.1)

pub first_crlf-none : (l : List ℕ) → Free 13 l → first_crlf l ≡ none
unfolding first_crlf
first_crlf-none [] h = refl
first_crlf-none (x ∷ l) h = ground (arith, h.0, first_crlf-none l h.1)

pub first_crlf-bound : (xs : List ℕ) (i : ℕ) → first_crlf xs ≡ some i → i + 2 ≤ length xs
unfolding first_crlf
first_crlf-bound [] i h = cc
first_crlf-bound (x ∷ []) i h = ground arith
first_crlf-bound (x ∷ y ∷ xs) i h = ground (arith, first_crlf-bound (y ∷ xs) (i - 1))

abbrev pub is_space : ℕ → Bool
is_space c = (leb 9 c && leb c 13) || c == 32
