-- ===== src/Procmon/Rounding.antt =====
-- procmon/plot.cc: what is relied on of floating-point arithmetic and of its conversions to `int`: the
-- operations round monotonically, and are exact on small whole numbers; a zero has no sign here.
use linux_socket_test.Prelude.{ℕ, ◌*◌, ◌≤◌, ◌<◌, ◌≡◌, some, true}
use linux_socket_test.Prelude.Int.{ℤ, pos, negsuc, neg_nat, fits}
use linux_socket_test.Procmon.Doubles.{Doubles, of_nat, half}
use linux_socket_test.Procmon.Plot.{diff}

infix 50 ◌≤ℤ◌
abbrev pub ◌≤ℤ◌ : ℤ → ℤ → Type 0
pos a ≤ℤ pos b = a ≤ b
negsuc a ≤ℤ pos b = Unit
pos a ≤ℤ negsuc b = ⊥
negsuc a ≤ℤ negsuc b = b ≤ a

-- Finite numbers.
pub record Laws (d : Doubles) : Type 1 where
  pub Le : d.Double → d.Double → Type 0
  pub le_trans : (a b c : d.Double) → Le a b → Le b c → Le a c
  pub of_int_mono : (a b : ℤ) → a ≤ℤ b → Le (d.of_int a) (d.of_int b)
  pub add_mono_left : (a b c : d.Double) → Le a b → Le (d.add c a) (d.add c b)
  pub add_mono_right : (a b c : d.Double) → Le a b → Le (d.add a c) (d.add b c)
  pub sub_mono : (a b c : d.Double) → Le a b → Le (d.sub c b) (d.sub c a)
  pub mul_mono : (a b c : d.Double) → Le (of_nat d 0) c → Le a b → Le (d.mul a c) (d.mul b c)
  pub mul_anti :
      (n : ℕ) (a b : d.Double)
      → Le (of_nat d 0) a
      → Le a b
      → Le (d.mul (d.of_int (neg_nat n)) b) (d.mul (d.of_int (neg_nat n)) a)
  pub div_nonneg : (a b : ℕ) → 0 < b → Le (of_nat d 0) (d.div (of_nat d a) (of_nat d b))
  pub div_le :
      (a b : ℕ) → 0 < b → a < 2147483648 → Le (d.div (of_nat d a) (of_nat d b)) (of_nat d a)
  pub div_unit :
      (a m : d.Double)
      → Le (of_nat d 0) a
      → Le a m
      → d.less (of_nat d 0) m ≡ true
      → Le (of_nat d 0) (d.div a m) × Le (d.div a m) (of_nat d 1)
  pub one_sub_zero : d.sub (of_nat d 1) (of_nat d 0) ≡ of_nat d 1
  pub one_sub_one : d.sub (of_nat d 1) (of_nat d 1) ≡ of_nat d 0
  pub zero_mul : (c : d.Double) → Le (of_nat d 0) c → d.mul (of_nat d 0) c ≡ of_nat d 0
  pub one_mul : (n : ℕ) → d.mul (of_nat d 1) (of_nat d n) ≡ of_nat d n
  pub mul_int :
      (m n : ℕ)
      → m * n < 2147483648
      → d.mul (d.of_int (neg_nat m)) (of_nat d n) ≡ d.of_int (neg_nat (m * n))
  pub add_zero : (n : ℕ) → d.add (of_nat d n) (of_nat d 0) ≡ of_nat d n
  pub add_int :
      (m n : ℕ)
      → m < 2147483648
      → n < 2147483648
      → d.add (of_nat d n) (d.of_int (neg_nat m)) ≡ d.of_int (diff n m)
  pub truncate_between :
      (a x b : d.Double) (y z : ℤ)
      → Le a x
      → Le x b
      → d.truncate a ≡ some y
      → d.truncate b ≡ some z
      → (t : ℤ) × (d.truncate x ≡ some t) × (y ≤ℤ t) × (t ≤ℤ z)
  pub truncate_fits : (x : d.Double) (z : ℤ) → d.truncate x ≡ some z → fits 31 z ≡ true
  pub truncate_defined :
      (z : ℤ) → fits 31 z ≡ true → (y : ℤ) × (d.truncate (d.add (d.of_int z) (half d)) ≡ some y)
  pub truncate_round :
      (n : ℕ) → n < 2147483648 → d.truncate (d.add (of_nat d n) (half d)) ≡ some (pos n)
