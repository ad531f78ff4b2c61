-- ===== src/Prelude/Decimal.antt =====
-- Decimal numbers as `printf` prints them.
use Prim.Native.Nat.{ℕ, zero, suc, ◌+◌, ◌-◌, ◌*◌, ◌/◌, ◌%◌, ◌<◌}
use mathlib.Core.Path.{◌≡◌, ap, ◌∙◌}
use mathlib.Core.Bool.{true, false}
use mathlib.Core.List.{List, [], ◌∷◌}
use native.Mathlib.Omega.{arith}
use native.Mathlib.Decide.{dec_lt}
use linux_socket_test.Prelude.Tests.{ltb}

-- The digits of `n` in front of others, on fuel.
unfoldable pub show_digits : ℕ → ℕ → List ℕ → List ℕ
show_digits zero n acc = acc
show_digits (suc fuel) n acc = elim (ltb n 10) [
  | true ↦ (48 + n) ∷ acc
  | false ↦ show_digits fuel (n / 10) ((48 + n % 10) ∷ acc)
]

unfoldable pub show_nat : ℕ → List ℕ
show_nat n = show_digits (n + 1) n []

-- The number that digits stand for, behind a number that has been read.
unfoldable pub decimal_value : ℕ → List ℕ → ℕ
decimal_value acc [] = acc
decimal_value acc (c ∷ cs) = decimal_value (acc * 10 + (c - 48)) cs

show_digits-value :
    (fuel n : ℕ) (acc : List ℕ)
    → n < fuel
    → decimal_value 0 (show_digits fuel n acc) ≡ decimal_value n acc
unfolding show_digits decimal_value
show_digits-value zero n acc h = absurd (omega arith)
show_digits-value (suc fuel) n acc h = elim (dec_lt n 10) [
  | yes small ↦ ground (arith, small)
  | no large ↦
      let ih = show_digits-value fuel (n / 10) ((48 + n % 10) ∷ acc) (omega arith) in
      let e : show_digits (suc fuel) n acc ≡ show_digits fuel (n / 10) ((48 + n % 10) ∷ acc) =
        ground (arith, large) in
      let v : n / 10 * 10 + (48 + n % 10 - 48) ≡ n = omega arith in
      rw e (ih ∙ ap (λ k. decimal_value k acc) v)
]

-- Printing and reading give the number back.
pub show_nat-value : (n : ℕ) → decimal_value 0 (show_nat n) ≡ n
unfolding show_nat decimal_value
show_nat-value n = show_digits-value (n + 1) n [] (omega arith)
