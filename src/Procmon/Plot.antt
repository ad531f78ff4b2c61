-- ===== src/Procmon/Plot.antt =====
-- procmon/plot.cc and procmon/plot.h: the picture of the processor times, as the calls of the graphics
-- library that draw it.
use linux_socket_test.Prelude.{
  ℕ, ◌+◌, ◌-◌, ◌*◌, ◌/◌, List, [], ◌∷◌, ◌++◌, Option, none, some, ◌>>=◌, ◌==◌, not, leb,
  if◌then◌else◌, codes, length, take,
}
use linux_socket_test.Prelude.Int.{ℤ, pos, neg_nat, ◌+ℤ◌, times, fits}
use linux_socket_test.Prelude.Decimal.{show_nat}
use linux_socket_test.Procmon.Doubles.{Doubles, of_nat, half, tenth}

pub data Color : Type 0 where
  background : Color
  black : Color
  gray : Color
  blue : Color

pub record Segment : Type 0 where
  pub x1 : ℤ
  pub y1 : ℤ
  pub x2 : ℤ
  pub y2 : ℤ

-- The calls of the library on the image.
pub data Draw : Type 0 where
  filled_rectangle : Segment → Color → Draw
  set_thickness : ℕ → Draw
  line : Segment → Color → Draw
  string : ℤ → ℤ → List ℕ → Color → Draw

-- The members that are not the library's.
pub record Plot : Type 0 where
  pub width : ℕ
  pub height : ℕ
  pub total_seconds : ℕ
  pub sampling_period : ℕ
  pub font_width : ℕ
  pub font_height : ℕ

-- `kLeftMargin_` and `kMarginY_`.
abbrev pub left_margin : ℕ
left_margin = 5

abbrev pub margin_y : ℕ
margin_y = 5

abbrev pub right_margin : Plot → ℕ
right_margin p = 3 * p.font_width + 5

-- A difference of two sizes.
abbrev pub diff : ℕ → ℕ → ℤ
diff a b = if leb b a then pos (a - b) else neg_nat (b - a)

-- `width_ - kLeftMargin_ - kRightMargin_`, and `height_ - 2 * kMarginY_`.
abbrev pub inner_width : Plot → ℤ
inner_width p = diff p.width (left_margin + right_margin p)

abbrev pub inner_height : Plot → ℤ
inner_height p = diff p.height (2 * margin_y)

-- `gdImageString` takes a text that `snprintf` has cut to its buffer.
abbrev buffer : List ℕ → List ℕ
buffer text = take 63 text

-- The result of an operation on `int`; it is undefined where it overflows.
abbrev pub int : ℤ → Option ℤ
int z = if fits 31 z then some z else none

module _ (d : Doubles) where
  open d use {Double, of_int, add, sub, mul, div, ceil, truncate, less, format}

  -- `kRightMargin_` and `ratioX_` of the constructor.
  unfoldable pub ratio_x : Plot → Option Double
  ratio_x p = int (pos (right_margin p)) >>= λ margin. int (inner_width p) >>= λ inner.
      int (times inner p.sampling_period) >>= λ product.
      some (div (of_int product) (of_nat d p.total_seconds))

  unfoldable pub get_x : Plot → ℕ → ℕ → Option ℤ
  get_x p i total = ratio_x p >>= λ ratio.
      truncate (add (add (of_int (inner_width p)) (mul (of_int (diff i total)) ratio)) (half d))
      >>= λ x. int (x +ℤ pos left_margin)

  unfoldable pub get_y : Plot → Double → Option ℤ
  get_y p value = int (inner_height p) >>= λ inner.
      truncate (add (mul (sub (of_nat d 1) value) (of_int inner)) (half d)) >>= λ y.
      int (y +ℤ pos margin_y)

  -- `std::max_element`, behind a first element.
  unfoldable pub max_element : Double → List Double → Double
  max_element m [] = m
  max_element m (v ∷ vs) = max_element (if less m v then v else m) vs

  -- The value at the top of the picture, for the greatest of the data.
  unfoldable pub scale : Double → Double
  scale max =
      if not (less max (of_nat d 10))
      then ceil max
      else (let rounded = div (ceil (mul max (of_nat d 10))) (of_nat d 10) in
          if less (tenth d) rounded then rounded else tenth d)

  unfoldable pub label : Plot → Double → List Draw
  label p max_value =
      let x = diff (p.width + 3) (right_margin p) in
      let text = format (if not (less max_value (of_nat d 10)) then 0 else 1) max_value in
      string x (diff margin_y 3) (buffer text) black
      ∷ string x (diff p.height (margin_y + 3 + p.font_height / 2)) (codes "0") gray
      ∷ string (pos left_margin) (diff p.height (margin_y + p.font_height))
          (buffer (codes "-" ++ show_nat p.total_seconds ++ codes "s")) blue
      ∷ []

  -- The loop over the data, from index `i` on.
  unfoldable pub curve : Plot → Double → ℕ → ℕ → List Double → Option (List Segment)
  curve p max i size [] = some []
  curve p max i size (v ∷ []) = some []
  curve p max i size (v ∷ w ∷ rest) =
      let later = curve p max (i + 1) size (w ∷ rest) in
      do
        left ← get_x p i size
        from ← get_y p (div v max)
        right ← get_x p (i + 1) size
        to ← get_y p (div w max)
        segments ← later
        some (record { x1 = left; y1 = from; x2 = right; y2 = to } ∷ segments)

  abbrev lines : List Segment → List Draw
  lines [] = []
  lines (s ∷ ss) = line s black ∷ lines ss

  unfoldable pub plot_data : Plot → List Double → Option (List Draw)
  plot_data p [] = some []
  plot_data p (v ∷ []) = some []
  plot_data p (v ∷ w ∷ rest) =
      let data_ = v ∷ w ∷ rest in
      let max = scale (max_element v (w ∷ rest)) in
      curve p max 0 (length data_) data_ >>= λ segments.
      some (set_thickness 2 ∷ label p max ++ lines segments)

  -- The line below the curve, and the one on its right; a period of 0 is a division by 0.
  unfoldable pub axes : Plot → Option (List Draw)
  axes p =
      let total = p.total_seconds / p.sampling_period in
      if p.sampling_period == 0 then none else do
        left ← get_x p 0 total
        right ← get_x p total total
        low ← get_y p (of_nat d 0)
        bottom ← int (low +ℤ pos 2)
        high ← get_y p (of_nat d 1)
        top ← int (high +ℤ pos 2)
        some (
            line (record { x1 = left; y1 = bottom; x2 = right; y2 = bottom }) gray
            ∷ line (record { x1 = right; y1 = bottom; x2 = right; y2 = top }) gray
            ∷ [])

  -- `plotCpu`, without the conversion of the image; `none` is an operation that is undefined.
  unfoldable pub plot_cpu : Plot → List Double → Option (List Draw)
  plot_cpu p values = do
    over ← plot_data p values
    below ← axes p
    some (
        filled_rectangle (record { x1 = pos 0; y1 = pos 0; x2 = pos p.width; y2 = pos p.height })
            background
          ∷ over
        ++ set_thickness 1 ∷ below)
