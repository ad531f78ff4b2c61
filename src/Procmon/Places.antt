-- ===== src/Procmon/Places.antt =====
-- procmon/plot.cc: where `getX` and `getY` put a value.
use linux_socket_test.Prelude.{ℕ, ◌+◌, ◌-◌, ◌*◌, ◌≤◌, ◌<◌, ◌≡◌, refl, ap, ◌∙◌, some, true, arith}
use mathlib.Core.Path.{subst}
use native.Mathlib.Nat.{mul-le-mul_left, mul-le-mul_right}
use linux_socket_test.Prelude.Int.{ℤ, pos, negsuc, neg_nat, ◌+ℤ◌, fits}
use linux_socket_test.Procmon.Doubles.{Doubles, of_nat, half}
use linux_socket_test.Procmon.Plot.{
  Plot, left_margin, margin_y, right_margin, diff, inner_width, inner_height, int, ratio_x, get_x,
  get_y,
}
use linux_socket_test.Procmon.Rounding.{◌≤ℤ◌, Laws}

shift_mono : (a b : ℤ) (k : ℕ) → a ≤ℤ b → (a +ℤ pos k) ≤ℤ (b +ℤ pos k)
shift_mono (pos a) (pos b) k h = ground arith
shift_mono (negsuc a) (pos b) k h = ground arith
shift_mono (pos a) (negsuc b) k h = absurd h
shift_mono (negsuc a) (negsuc b) k h = ground arith

diff_mono : (i j n : ℕ) → i ≤ j → diff i n ≤ℤ diff j n
diff_mono i j n h = ground arith

diff_zero : (n : ℕ) → diff 0 n ≡ neg_nat n
diff_zero n = ground arith

diff_same : (n : ℕ) → diff n n ≡ pos 0
diff_same n = ground arith

-- The margins leave room in the picture, and no product of its sizes leaves `int`, also not over the
-- number of values that are shown.
pub record IsRoomy (p : Plot) (size : ℕ) : Type 0 where
  pub wide : left_margin + right_margin p ≤ p.width
  pub high : 2 * margin_y ≤ p.height
  pub width_fits : p.width < 2147483648
  pub height_fits : p.height < 2147483648
  pub period_fits : p.width * p.sampling_period < 2147483648
  pub size_fits : size * (p.width * p.sampling_period) < 2147483648
  pub lasts : 0 < p.total_seconds

abbrev inner : Plot → ℕ
inner p = p.width - (left_margin + right_margin p)

inner_height-pos :
    (p : Plot) (size : ℕ) → IsRoomy p size → inner_height p ≡ pos (p.height - 2 * margin_y)
inner_height-pos p size r = ground (arith, r.high)

inner_width-pos : (p : Plot) (size : ℕ) → IsRoomy p size → inner_width p ≡ pos (inner p)
inner_width-pos p size r = ground (arith, r.wide)

below_trans : (a b : ℤ) (n : ℕ) → a ≤ℤ b → b ≤ℤ pos n → a ≤ℤ pos n
below_trans (pos a) (pos b) n h k = omega (arith, h, k)
below_trans (negsuc a) b n h k = tt
below_trans (pos a) (negsuc b) n h k = absurd h

-- A number at the margin is an `int`.
int_shift :
    (z : ℤ) (k n : ℕ)
    → fits 31 z ≡ true
    → z ≤ℤ pos n
    → n + k < 2147483648
    → int (z +ℤ pos k) ≡ some (z +ℤ pos k)
int_shift (pos a) k n f h small = ground arith
int_shift (negsuc a) k n f h small = ground arith

module _ (d : Doubles) (l : Laws d) where
  open d use {Double, of_int, add, sub, mul, div, truncate, less}
  open l use {
    Le, le_trans, of_int_mono, add_mono_left, add_mono_right, sub_mono, mul_mono, mul_anti,
    div_nonneg, div_le, div_unit, one_sub_zero, one_sub_one, zero_mul, one_mul, mul_int, add_zero,
    add_int, truncate_between, truncate_fits, truncate_defined, truncate_round,
  }

  -- A share of a height, before it is rounded.
  scaled : Double → ℕ → Double
  scaled v n = add (mul (sub (of_nat d 1) v) (of_nat d n)) (half d)

  scaled_bounds :
      (v : Double) (n : ℕ)
      → n < 2147483648
      → Le (of_nat d 0) v
      → Le v (of_nat d 1)
      → (t : ℤ) × (truncate (scaled v n) ≡ some t) × (pos 0 ≤ℤ t) × (t ≤ℤ pos n)
  unfolding scaled
  scaled_bounds v n small low high =
      let one = of_nat d 1 in
      let nonneg = of_int_mono (pos 0) (pos n) (omega arith) in
      let s = sub one v in
      let m = mul s (of_nat d n) in
      let s_low = subst (λ x. Le x s) one_sub_one (sub_mono v one one high) in
      let s_high = subst (λ x. Le s x) one_sub_zero (sub_mono (of_nat d 0) v one low) in
      let m_low =
        subst (λ x. Le x m) (zero_mul (of_nat d n) nonneg)
          (mul_mono (of_nat d 0) s (of_nat d n) nonneg s_low) in
      let m_high = subst (λ x. Le m x) (one_mul n) (mul_mono s one (of_nat d n) nonneg s_high) in
      truncate_between _ _ _ (pos 0) (pos n) (add_mono_right (of_nat d 0) m (half d) m_low)
        (add_mono_right m (of_nat d n) (half d) m_high) (truncate_round 0 (omega arith))
        (truncate_round n small)

  -- A value between 0 and 1 is drawn between the upper and the lower margin.
  pub get_y_bounds :
      (p : Plot) (size : ℕ) (v : Double)
      → IsRoomy p size
      → Le (of_nat d 0) v
      → Le v (of_nat d 1)
      → (y : ℤ) × (get_y d p v ≡ some y) × (pos margin_y ≤ℤ y) × (y ≤ℤ pos (p.height - margin_y))
  unfolding get_y scaled
  get_y_bounds p size v r low high =
      let n = p.height - 2 * margin_y in
      let small : n + margin_y < 2147483648 = omega (arith, r.height_fits) in
      let (t, here, above, below) = scaled_bounds v n (omega (arith, small)) low high in
      let top : n + margin_y ≡ p.height - margin_y = omega (arith, r.high) in
      let range : int (pos n) ≡ some (pos n) = ground (arith, small) in
      (
        t +ℤ pos margin_y,
        rw (inner_height-pos p size r, get_y)
            (rw range
              (rw here (int_shift t margin_y n (truncate_fits (scaled v n) t here) below small))),
        shift_mono (pos 0) t margin_y above,
        subst (λ k. (t +ℤ pos margin_y) ≤ℤ pos k) top (shift_mono t (pos n) margin_y below),
      )

  -- The ratio, where no product overflows.
  ratio : Plot → Double
  ratio p = div (of_nat d (inner p * p.sampling_period)) (of_nat d p.total_seconds)

  product_le : (p : Plot) → inner p * p.sampling_period ≤ p.width * p.sampling_period
  product_le p = mul-le-mul_right p.sampling_period (omega arith)

  ratio_x-ratio : (p : Plot) (size : ℕ) → IsRoomy p size → ratio_x d p ≡ some (ratio p)
  unfolding ratio_x ratio
  ratio_x-ratio p size r =
      let small = product_le p in
      let margin : int (pos (right_margin p)) ≡ some (pos (right_margin p)) =
        ground (arith, r.wide, r.width_fits) in
      let width : int (pos (inner p)) ≡ some (pos (inner p)) = ground (arith, r.width_fits) in
      let product : int (pos (inner p * p.sampling_period))
          ≡ some (pos (inner p * p.sampling_period)) =
        ground (arith, r.period_fits, small) in
      rw (margin, ratio_x) (rw (inner_width-pos p size r) (rw width (rw product refl)))

  ratio_nonneg : (p : Plot) (size : ℕ) → IsRoomy p size → Le (of_nat d 0) (ratio p)
  unfolding ratio
  ratio_nonneg p size r = div_nonneg (inner p * p.sampling_period) p.total_seconds r.lasts

  -- The place of a value, before it is rounded.
  place : Plot → ℕ → ℕ → Double
  place p i total = add (add (of_nat d (inner p)) (mul (of_int (diff i total)) (ratio p))) (half d)

  place_mono :
      (p : Plot) (size i j total : ℕ)
      → IsRoomy p size
      → i ≤ j
      → Le (place p i total) (place p j total)
  unfolding place
  place_mono p size i j total r h = add_mono_right _ _ (half d) (
      add_mono_left _ _ (of_nat d (inner p)) (
        mul_mono _ _ (ratio p) (ratio_nonneg p size r)
          (of_int_mono (diff i total) (diff j total) (diff_mono i j total h))))

  -- The first place is an `int`.
  place_first :
      (p : Plot) (size : ℕ)
      → IsRoomy p size
      → (a : Double) × (y : ℤ) × ((i : ℕ) → Le a (place p i size)) × (truncate a ≡ some y)
  unfolding place ratio
  place_first p size r =
      let n = inner p in
      let m = n * p.sampling_period in
      let small = product_le p in
      let far : size * m ≤ size * (p.width * p.sampling_period) = mul-le-mul_left size small in
      let le =
        mul_anti size (ratio p) (of_nat d m) (ratio_nonneg p size r)
          (div_le m p.total_seconds r.lasts (omega (arith, small, r.period_fits))) in
      let exact =
        ap (add (of_nat d n)) (mul_int size m (omega (arith, far, r.size_fits)))
        ∙ add_int (size * m) n (omega (arith, far, r.size_fits)) (omega (arith, r.width_fits)) in
      let fit : fits 31 (diff n (size * m)) ≡ true =
        ground (arith, far, r.size_fits, r.width_fits) in
      let (y, here) = truncate_defined (diff n (size * m)) fit in
      (
        add (add (of_nat d n) (mul (of_int (neg_nat size)) (of_nat d m))) (half d),
        y,
        λ i.
            le_trans _ (place p 0 size) _
              (rw (diff_zero size, place)
                (add_mono_right _ _ (half d) (add_mono_left _ _ (of_nat d n) le)))
              (place_mono p size 0 i size r (omega arith)),
        ap (λ x. truncate (add x (half d))) exact ∙ here,
      )

  -- The last place is the inner width.
  place_last :
      (p : Plot) (size : ℕ) → IsRoomy p size → truncate (place p size size) ≡ some (pos (inner p))
  unfolding place
  place_last p size r =
      rw (diff_same size, place)
        (ap (λ x. truncate (add (add (of_nat d (inner p)) x) (half d)))
            (zero_mul (ratio p) (ratio_nonneg p size r))
          ∙ ap (λ x. truncate (add x (half d))) (add_zero (inner p))
          ∙ truncate_round (inner p) (omega (arith, r.width_fits)))

  get_x_here :
      (p : Plot) (size i : ℕ) (t : ℤ)
      → IsRoomy p size
      → truncate (place p i size) ≡ some t
      → t ≤ℤ pos (inner p)
      → get_x d p i size ≡ some (t +ℤ pos left_margin)
  unfolding get_x place
  get_x_here p size i t r here below =
      rw (ratio_x-ratio p size r, get_x)
        (rw (inner_width-pos p size r) (
          rw here (
            int_shift t left_margin (inner p) (truncate_fits (place p i size) t here) below
              (omega (arith, r.wide, r.width_fits)))))

  -- A later sample is drawn further to the right, up to the right margin.
  pub get_x_bounds :
      (p : Plot) (size i j : ℕ)
      → IsRoomy p size
      → i ≤ j
      → j ≤ size
      → (x y : ℤ) × (get_x d p i size ≡ some x)
        × (get_x d p j size ≡ some y)
        × (x ≤ℤ y)
        × (y ≤ℤ pos (p.width - right_margin p))
  get_x_bounds p size i j r h k =
      let (a, low, first, start) = place_first p size r in
      let (u, there, _, end) =
        truncate_between a (place p j size) (place p size size) low (pos (inner p)) (first j)
          (place_mono p size j size size r k) start (place_last p size r) in
      let (t, here, _, left) =
        truncate_between a (place p i size) (place p j size) low u (first i)
          (place_mono p size i j size r h) start there in
      let right : inner p + left_margin ≡ p.width - right_margin p = omega (arith, r.wide) in
      (
        t +ℤ pos left_margin,
        u +ℤ pos left_margin,
        get_x_here p size i t r here (below_trans t u (inner p) left end),
        get_x_here p size j u r there end,
        shift_mono t u left_margin left,
        subst (λ n. (u +ℤ pos left_margin) ≤ℤ pos n) right
            (shift_mono u (pos (inner p)) left_margin end),
      )
