-- ===== src/Shell/Metrics/Bounds.antt =====
-- The limits of `computeTerminalMetrics`, for any window.
use alpenglow.Prelude.{ℕ, ◌≤◌, ◌<◌, arith}
use alpenglow.Double.{Double, number}
use alpenglow.Double.Laws.{
  IsDouble, ◌≼◌, IsNumber, IsFinite, IsPositive, min_max_bounds, math_min-IsNumber,
  le-math_max_left, math_max-IsFinite,
}
use alpenglow.Shell.State.{View}
use alpenglow.Shell.Metrics.{Metrics, pad_of, inner_of, cells_of, font_of, compute_terminal_metrics}

module _ {W : Type 0} ⦃d : Double W⦄ (laws : IsDouble W) where
  -- The window has a size.
  pub record IsMeasured (v : View W) : Type 0 where
    pub width : IsFinite v.inner_width
    pub height : IsFinite v.inner_height

  pub record InLimits (m : Metrics W) : Type 0 where
    pub cols_low : number 48 ≼ m.cols
    pub rows_low : number 14 ≼ m.rows
    pub font_low : number 11 ≼ m.font_size
    pub font_high : m.font_size ≼ number 26
    pub pad_low : number 24 ≼ m.pad
    pub pad_high : m.pad ≼ number 72

  number-IsNumber : (n : ℕ) → n ≤ 1000000 → IsNumber (number {W = W} n)
  number-IsNumber n h =
      (laws.number_of_le (number n) (number n) (laws.number_mono n n (omega arith) h)).0

  -- What is at least a positive literal is positive.
  IsPositive-of_le : (n : ℕ) (x : W) → 0 < n → n ≤ 1000000 → number n ≼ x → IsPositive x
  IsPositive-of_le n x p h le = ground (
    arith,
    laws.decimal-IsPositive n 0 p h (omega arith),
    laws.le_trans (number n) x (number 0) le,
  )

  pad_bounds : (v : View W) → IsMeasured v → (number 24 ≼ pad_of v) × (pad_of v ≼ number 72)
  unfolding pad_of
  pad_bounds v h =
      min_max_bounds laws (number 24) (number 72) _
        (laws.number_mono 24 72 (omega arith) (omega arith))
        (laws.mul-IsNumber _ (d.decimal 6 2)
          (math_min-IsNumber laws v.inner_width v.inner_height
            (laws.number_of_finite v.inner_width h.width)
            (laws.number_of_finite v.inner_height h.height))
          (laws.decimal-IsFinite 6 2 (omega arith) (omega arith))
          (laws.decimal-IsPositive 6 2 (omega arith) (omega arith) (omega arith)))

  -- The space inside the padding, for one side of the window.
  inner_bounds :
      (least : ℕ) (side pad : W)
      → least ≤ 1000000
      → IsFinite side
      → number 0 ≼ pad
      → (number least ≼ inner_of (number least) side pad)
        × IsFinite (inner_of (number least) side pad)
  unfolding inner_of
  inner_bounds least side pad small finite nonneg =
      let two_finite = laws.decimal-IsFinite 2 0 (omega arith) (omega arith) in
      let two_positive = laws.decimal-IsPositive 2 0 (omega arith) (omega arith) (omega arith) in
      let doubled = laws.mul_nonneg pad (number 2) nonneg two_finite two_positive in
      let both_sides = d.mul pad (number 2) in
      let rest = d.sub side both_sides in
      let rest_number =
        laws.sub-IsNumber side both_sides finite
          (laws.number_of_le (number 0) both_sides doubled).1 in
      let rest_le = laws.sub_le side both_sides finite doubled in
      let least_number = number-IsNumber least small in
      let lower = le-math_max_left laws (number least) rest least_number rest_number in
      (
        lower,
        math_max-IsFinite laws (number least) rest side
            (laws.decimal-IsFinite least 0 small (omega arith)) finite rest_number rest_le,
      )

  cells_bounds :
      (least : ℕ) (inner cell : W)
      → least ≤ 1000000
      → IsFinite inner
      → IsFinite cell
      → IsPositive cell
      → number least ≼ cells_of (number least) inner cell
  unfolding cells_of
  cells_bounds least inner cell small finite cell_finite positive =
      le-math_max_left laws (number least) _ (number-IsNumber least small) (
        laws.floor-IsNumber _
          (laws.div-IsNumber inner cell finite (laws.number_of_finite cell cell_finite) positive))

  font_bounds :
      (from_width from_height : W)
      → IsNumber from_width
      → IsNumber from_height
      → (number 11 ≼ font_of from_width from_height) × (font_of from_width from_height ≼ number 26)
  unfolding font_of
  font_bounds from_width from_height h k =
      min_max_bounds laws (number 11) (number 26) _
        (laws.number_mono 11 26 (omega arith) (omega arith))
        (laws.round-IsNumber _ (
          laws.mul-IsNumber _ (d.decimal 92 2) (math_min-IsNumber laws from_width from_height h k)
            (laws.decimal-IsFinite 92 2 (omega arith) (omega arith))
            (laws.decimal-IsPositive 92 2 (omega arith) (omega arith) (omega arith))))

  -- A side divided by its cells is a number.
  share-IsNumber :
      (least : ℕ) (inner cells : W)
      → 0 < least
      → least ≤ 1000000
      → IsFinite inner
      → number least ≼ cells
      → IsNumber (d.div inner cells)
  share-IsNumber least inner cells pos small finite low =
      laws.div-IsNumber inner cells finite (laws.number_of_le (number least) cells low).1
        (IsPositive-of_le least cells pos small low)

  -- With numbers that meet the laws of Double.Laws: in a window of finite width and height there
  -- are at least 48 columns and 14 rows, the font is 11 to 26 pixels high, and the padding is 24
  -- to 72 pixels.
  pub compute_terminal_metrics-InLimits :
      (v : View W) → IsMeasured v → InLimits (compute_terminal_metrics v)
  unfolding compute_terminal_metrics
  compute_terminal_metrics-InLimits v h =
      let (pad_low, pad_high) = pad_bounds v h in
      let nonneg =
        laws.le_trans (number 0) (number 24) (pad_of v)
          (laws.number_mono 0 24 (omega arith) (omega arith)) pad_low in
      let wide = inner_bounds 200 v.inner_width (pad_of v) (omega arith) h.width nonneg in
      let tall = inner_bounds 120 v.inner_height (pad_of v) (omega arith) h.height nonneg in
      let cols =
        cells_bounds 48 _ (d.decimal 82 1) (omega arith) wide.1
          (laws.decimal-IsFinite 82 1 (omega arith) (omega arith))
          (laws.decimal-IsPositive 82 1 (omega arith) (omega arith) (omega arith)) in
      let rows =
        cells_bounds 14 _ (number 18) (omega arith) tall.1
          (laws.decimal-IsFinite 18 0 (omega arith) (omega arith))
          (laws.decimal-IsPositive 18 0 (omega arith) (omega arith) (omega arith)) in
      let font =
        font_bounds _ _ (share-IsNumber 48 _ _ (omega arith) (omega arith) wide.1 cols)
          (share-IsNumber 14 _ _ (omega arith) (omega arith) tall.1 rows) in
      record {
        cols_low = cols;
        rows_low = rows;
        font_low = font.0;
        font_high = font.1;
        pad_low = pad_low;
        pad_high = pad_high;
      }
