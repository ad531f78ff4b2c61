-- ===== src/Procmon/Curve.antt =====
-- procmon/plot.cc: where the curve runs.
use linux_socket_test.Prelude.{
  ℕ, ◌+◌, ◌-◌, ◌≤◌, ◌≡◌, refl, List, [], ◌∷◌, some, true, arith, length,
}
use linux_socket_test.Prelude.Int.{pos}
use linux_socket_test.Procmon.Doubles.{Doubles, of_nat}
use linux_socket_test.Procmon.Plot.{Plot, Segment, margin_y, right_margin, curve}
use linux_socket_test.Procmon.Rounding.{◌≤ℤ◌, Laws}
use linux_socket_test.Procmon.Places.{IsRoomy, get_x_bounds, get_y_bounds}

-- A line of the curve goes to the right, up to the right margin, and stays between the upper and the
-- lower margin.
pub record Inside (p : Plot) (s : Segment) : Type 0 where
  pub rightwards : s.x1 ≤ℤ s.x2
  pub right : s.x2 ≤ℤ pos (p.width - right_margin p)
  pub top1 : pos margin_y ≤ℤ s.y1
  pub bottom1 : s.y1 ≤ℤ pos (p.height - margin_y)
  pub top2 : pos margin_y ≤ℤ s.y2
  pub bottom2 : s.y2 ≤ℤ pos (p.height - margin_y)

abbrev pub AllInside : Plot → List Segment → Type 0
AllInside p [] = Unit
AllInside p (s ∷ ss) = Inside p s × AllInside p ss

module _ (d : Doubles) (l : Laws d) where
  open d use {Double, div, less}
  open l use {Le, div_unit}

  -- The values between 0 and a greatest one.
  abbrev pub Within : Double → List Double → Type 0
  Within max [] = Unit
  Within max (v ∷ vs) = (Le (of_nat d 0) v × Le v max) × Within max vs

  curve-Inside :
      (p : Plot) (max : Double) (i size : ℕ) (vs : List Double)
      → IsRoomy p size
      → less (of_nat d 0) max ≡ true
      → i + length vs ≤ size
      → Within max vs
      → (ss : List Segment) × (curve d p max i size vs ≡ some ss) × AllInside p ss
  unfolding curve
  curve-Inside p max i size [] r positive enough h = ([], refl, tt)
  curve-Inside p max i size (v ∷ []) r positive enough h = ([], refl, tt)
  curve-Inside p max i size (v ∷ w ∷ rest) r positive enough h =
      let unit1 = div_unit v max h.0.0 h.0.1 positive in
      let unit2 = div_unit w max h.1.0.0 h.1.0.1 positive in
      let (from, e1, above1, below1) = get_y_bounds d l p size (div v max) r unit1.0 unit1.1 in
      let (to, e2, above2, below2) = get_y_bounds d l p size (div w max) r unit2.0 unit2.1 in
      let (left, right, e3, e4, onwards, inside) =
        get_x_bounds d l p size i (i + 1) r (omega arith) (omega (arith, enough)) in
      let (ss, later, all) =
        curve-Inside p max (i + 1) size (w ∷ rest) r positive (omega (arith, enough)) h.1 in
      (
        record { x1 = left; y1 = from; x2 = right; y2 = to } ∷ ss,
        rw (e3, curve) (rw e1 (rw e4 (rw e2 (rw later refl)))),
        (
          record {
            rightwards = onwards;
            right = inside;
            top1 = above1;
            bottom1 = below1;
            top2 = above2;
            bottom2 = below2;
          },
          all,
        ),
      )

  -- In a picture whose margins leave room, and whose sizes, period and number of values have products
  -- that are no more than an `int`, nothing that the curve of values between 0 and the value at the top
  -- computes is undefined, and the curve runs from left to right, up to the right margin at most, and
  -- stays between the upper and lower margin.
  pub curve_inside :
      (p : Plot) (max : Double) (values : List Double)
      → IsRoomy p (length values)
      → less (of_nat d 0) max ≡ true
      → Within max values
      → (ss : List Segment) × (curve d p max 0 (length values) values ≡ some ss) × AllInside p ss
  curve_inside p max values r positive h =
      curve-Inside p max 0 (length values) values r positive (omega arith) h
