-- ===== src/Procmon/Doubles.antt =====
-- The floating-point numbers that procmon/procmon.cpp and procmon/plot.cc compute with.
use linux_socket_test.Prelude.{ℕ, List, Bool, Option}
use linux_socket_test.Prelude.Int.{ℤ, pos}

-- `truncate` is `static_cast<int>`, and `none` where it is undefined, outside of `int`; `format n` prints with "%.nf".
pub record Doubles : Type 1 where
  pub Double : Type 0
  pub of_int : ℤ → Double
  pub add : Double → Double → Double
  pub sub : Double → Double → Double
  pub mul : Double → Double → Double
  pub div : Double → Double → Double
  pub ceil : Double → Double
  pub truncate : Double → Option ℤ
  pub less : Double → Double → Bool
  pub format : ℕ → Double → List ℕ

module _ (d : Doubles) where
  open d use {Double, of_int, div}

  abbrev pub of_nat : ℕ → Double
  of_nat n = of_int (pos n)

  -- The literals 0.5 and 0.1.
  abbrev pub half : Double
  half = div (of_nat 1) (of_nat 2)

  abbrev pub tenth : Double
  tenth = div (of_nat 1) (of_nat 10)
