-- ===== src/Procmon/PlotTests.antt =====
-- A picture over whole numbers, in place of the floating-point ones: a quotient is 0 or 1.
use linux_socket_test.Prelude.{
  ℕ, zero, suc, ◌*◌, ◌≤◌, ◌<◌, ◌≡◌, refl, List, [], ◌∷◌, some, Bool, true, Bool-cases, inl, inr,
  false, ltb, if◌then◌else◌, arith,
}
use native.Mathlib.Nat.{mul-le-mul_left, mul-le-mul_right}
use mathlib.Core.Path.{subst}
use mathlib.Core.Option.{some-injective}
use linux_socket_test.Prelude.Int.{ℤ, pos, negsuc, neg_nat, ◌+ℤ◌, times, fits}
use linux_socket_test.Prelude.Scan.{show_int}
use linux_socket_test.Procmon.Doubles.{Doubles}
use linux_socket_test.Procmon.Plot.{Plot, Segment, diff, int, curve}
use linux_socket_test.Procmon.Rounding.{◌≤ℤ◌, Laws}
use linux_socket_test.Procmon.Places.{IsRoomy}
use linux_socket_test.Procmon.Curve.{AllInside, curve_inside}

abbrev opposite : ℤ → ℤ
opposite (pos n) = neg_nat n
opposite (negsuc n) = pos (suc n)

abbrev product : ℤ → ℤ → ℤ
product a (pos k) = times a k
product a (negsuc k) = opposite (times a (suc k))

abbrev less : ℤ → ℤ → Bool
less (pos a) (pos b) = ltb a b
less (negsuc a) (pos b) = true
less (pos a) (negsuc b) = false
less (negsuc a) (negsuc b) = ltb b a

abbrev quotient : ℤ → ℤ → ℤ
quotient (pos a) (pos b) = if ltb a b then pos 0 else pos 1
quotient _ _ = pos 0

abbrev whole : Doubles
whole = record {
  Double = ℤ;
  of_int = λ z. z;
  add = ◌+ℤ◌;
  sub = λ a b. a +ℤ opposite b;
  mul = product;
  div = quotient;
  ceil = λ a. a;
  truncate = int;
  less = less;
  format = λ n a. show_int a;
}

add_mono : (a b c : ℤ) → a ≤ℤ b → (a +ℤ c) ≤ℤ (b +ℤ c)
add_mono (pos a) (pos b) (pos c) h = ground arith
add_mono (negsuc a) (pos b) (pos c) h = ground arith
add_mono (negsuc a) (negsuc b) (pos c) h = ground arith
add_mono (pos a) (negsuc b) c h = absurd h
add_mono (pos a) (pos b) (negsuc c) h = ground arith
add_mono (negsuc a) (pos b) (negsuc c) h = ground arith
add_mono (negsuc a) (negsuc b) (negsuc c) h = ground arith

add_comm : (a b : ℤ) → a +ℤ b ≡ b +ℤ a
add_comm (pos a) (pos b) = ground arith
add_comm (negsuc a) (pos b) = ground arith
add_comm (pos a) (negsuc b) = ground arith
add_comm (negsuc a) (negsuc b) = ground arith

add_mono_left : (a b c : ℤ) → a ≤ℤ b → (c +ℤ a) ≤ℤ (c +ℤ b)
add_mono_left a b c h = rw (add_comm c a, add_comm c b) (add_mono a b c h)

opposite_mono : (a b : ℤ) → a ≤ℤ b → opposite b ≤ℤ opposite a
opposite_mono (pos zero) (pos zero) h = ground arith
opposite_mono (pos zero) (pos (suc b)) h = tt
opposite_mono (pos (suc a)) (pos zero) h = absurd (omega (arith, h))
opposite_mono (pos (suc a)) (pos (suc b)) h = ground arith
opposite_mono (negsuc a) (pos zero) h = ground arith
opposite_mono (negsuc a) (pos (suc b)) h = tt
opposite_mono (pos a) (negsuc b) h = absurd h
opposite_mono (negsuc a) (negsuc b) h = ground arith

neg_nat_low : (n : ℕ) (m : ℕ) → neg_nat n ≤ℤ pos m
neg_nat_low zero m = omega arith
neg_nat_low (suc n) m = tt

neg_nat_mono : (m n : ℕ) → m ≤ n → neg_nat n ≤ℤ neg_nat m
neg_nat_mono zero n h = neg_nat_low n 0
neg_nat_mono (suc m) zero h = absurd (omega (arith, h))
neg_nat_mono (suc m) (suc n) h = omega (arith, h)

product_mono : (a b c : ℤ) → pos 0 ≤ℤ c → a ≤ℤ b → product a c ≤ℤ product b c
product_mono a b (negsuc k) p h = absurd p
product_mono (pos a) (pos b) (pos k) p h = mul-le-mul_right k h
product_mono (negsuc a) (pos b) (pos k) p h = neg_nat_low (suc a * k) (b * k)
product_mono (pos a) (negsuc b) (pos k) p h = absurd h
product_mono (negsuc a) (negsuc b) (pos k) p h =
    let le : suc b ≤ suc a = omega (arith, h) in
    neg_nat_mono (suc b * k) (suc a * k) (mul-le-mul_right k le)

quotient_unit : (a m : ℤ) → pos 0 ≤ℤ a → a ≤ℤ m → (pos 0 ≤ℤ quotient a m) × (quotient a m ≤ℤ pos 1)
quotient_unit (pos a) (pos m) h k = ground arith
quotient_unit (pos a) (negsuc m) h k = absurd k
quotient_unit (negsuc a) m h k = absurd h

zero_product : (c : ℤ) → pos 0 ≤ℤ c → product (pos 0) c ≡ pos 0
zero_product (pos k) h = ground arith
zero_product (negsuc k) h = absurd h

le_trans : (a b c : ℤ) → a ≤ℤ b → b ≤ℤ c → a ≤ℤ c
le_trans (pos a) (pos b) (pos c) h k = omega (arith, h, k)
le_trans (negsuc a) (pos b) (pos c) h k = tt
le_trans (negsuc a) (negsuc b) (pos c) h k = tt
le_trans (negsuc a) (negsuc b) (negsuc c) h k = omega (arith, h, k)
le_trans (pos a) (negsuc b) c h k = absurd h
le_trans (pos a) (pos b) (negsuc c) h k = absurd k
le_trans (negsuc a) (pos b) (negsuc c) h k = absurd k

product_anti :
    (n : ℕ) (a b : ℤ) → pos 0 ≤ℤ a → a ≤ℤ b → product (neg_nat n) b ≤ℤ product (neg_nat n) a
product_anti n (negsuc a) b p h = absurd p
product_anti n (pos a) (negsuc b) p h = absurd h
product_anti zero (pos a) (pos b) p h = ground arith
product_anti (suc n) (pos a) (pos b) p h =
    neg_nat_mono (suc n * a) (suc n * b) (mul-le-mul_left (suc n) h)

product_neg : (m n : ℕ) → product (neg_nat m) (pos n) ≡ neg_nat (m * n)
product_neg zero n = ground arith
product_neg (suc m) n = refl

add_neg : (m n : ℕ) → pos n +ℤ neg_nat m ≡ diff n m
add_neg zero n = ground arith
add_neg (suc m) n = ground arith

quotient_le : (a b : ℕ) → 0 < b → quotient (pos a) (pos b) ≤ℤ pos a
quotient_le a b h = ground arith

range_known : (z t : ℤ) → int z ≡ some t → (fits 31 z ≡ true) × (z ≡ t)
range_known z t e = elim (Bool-cases (fits 31 z)) [
  | inl yes_fits ↦ (yes_fits, some-injective z t (ground (arith, e, yes_fits)))
  | inr out ↦ absurd (ground (arith, e, out))
]

fits_between :
    (a x b : ℤ) → a ≤ℤ x → x ≤ℤ b → fits 31 a ≡ true → fits 31 b ≡ true → fits 31 x ≡ true
fits_between (pos a) (pos x) (pos b) h k f g = ground (arith, h, k, g)
fits_between (negsuc a) (pos x) (pos b) h k f g = ground (arith, k, g)
fits_between (negsuc a) (negsuc x) b h k f g = ground (arith, h, f)
fits_between (pos a) (negsuc x) b h k f g = absurd h
fits_between (pos a) (pos x) (negsuc b) h k f g = absurd k
fits_between (negsuc a) (pos x) (negsuc b) h k f g = absurd k

int_between :
    (a x b y z : ℤ)
    → a ≤ℤ x
    → x ≤ℤ b
    → int a ≡ some y
    → int b ≡ some z
    → (t : ℤ) × (int x ≡ some t) × (y ≤ℤ t) × (t ≤ℤ z)
int_between a x b y z h k e f =
    let (fit_a, same_a) = range_known a y e in
    let (fit_b, same_b) = range_known b z f in
    let fit_x = fits_between a x b h k fit_a fit_b in
    (x, rw fit_x refl, subst (λ i. i ≤ℤ x) same_a h, subst (λ i. x ≤ℤ i) same_b k)

range_kept : (x z : ℤ) → int x ≡ some z → fits 31 z ≡ true
range_kept x z e = let (fit, same) = range_known x z e in subst (λ i. fits 31 i ≡ true) same fit

int_defined : (z : ℤ) → fits 31 z ≡ true → (y : ℤ) × (int (z +ℤ pos 0) ≡ some y)
int_defined (pos n) h = (pos n, ground (arith, h))
int_defined (negsuc n) h = (negsuc n, ground (arith, h))

whole_laws : Laws whole
whole_laws = record {
  Le = ◌≤ℤ◌;
  of_int_mono = λ a b h. h;
  add_mono_left = add_mono_left;
  add_mono_right = add_mono;
  sub_mono = λ a b c h. add_mono_left (opposite b) (opposite a) c (opposite_mono a b h);
  mul_mono = product_mono;
  truncate_between = int_between;
  truncate_fits = range_kept;
  truncate_defined = int_defined;
  le_trans = le_trans;
  mul_anti = product_anti;
  mul_int = λ m n h. product_neg m n;
  add_int = λ m n h k. add_neg m n;
  div_le = λ a b h k. quotient_le a b h;
  div_nonneg = λ a b h. ground arith;
  div_unit = λ a m h k p. quotient_unit a m h k;
  one_sub_zero = refl;
  one_sub_one = refl;
  zero_mul = zero_product;
  one_mul = λ n. ground arith;
  add_zero = λ n. ground arith;
  truncate_round = λ n h. ground arith;
}

-- The picture of the process monitor, with a font of 6 by 13.
abbrev chart : Plot
chart = record {
  width = 640;
  height = 100;
  total_seconds = 600;
  sampling_period = 2;
  font_width = 6;
  font_height = 13;
}

chart-IsRoomy : IsRoomy chart 3
chart-IsRoomy = record {
  wide = omega arith;
  high = omega arith;
  width_fits = omega arith;
  height_fits = omega arith;
  period_fits = omega arith;
  size_fits = omega arith;
  lasts = omega arith;
}

curve_inside_example :
    (ss : List Segment) × (curve whole chart (pos 9) 0 3 (pos 0 ∷ pos 9 ∷ pos 4 ∷ []) ≡ some ss)
    × AllInside chart ss
unfolding whole_laws
curve_inside_example =
    curve_inside whole whole_laws chart (pos 9) (pos 0 ∷ pos 9 ∷ pos 4 ∷ []) chart-IsRoomy refl
      ((omega arith, omega arith), ((omega arith, omega arith), ((omega arith, omega arith), tt)))
