-- ===== src/Shell/Metrics.antt =====
-- `computeTerminalMetrics` (lines 83-104): the size of the terminal in cells and its font size,
-- from the size of the window.
pub mod Bounds
use alpenglow.Double.{Double, number, math_min, math_max}
use alpenglow.Shell.State.{View}

pub record Metrics (W : Type 0) : Type 0 where
  pub cols : W
  pub rows : W
  pub font_size : W
  pub pad : W

module _ {W : Type 0} ⦃d : Double W⦄ where
  pub pad_of : View W → W
  pad_of v =
      math_min (number 72)
        (math_max (number 24) (d.mul (math_min v.inner_width v.inner_height) (d.decimal 6 2)))

  -- `Math.max(least, side - pad * 2)`
  pub inner_of : W → W → W → W
  inner_of least side pad = math_max least (d.sub side (d.mul pad (number 2)))

  -- `Math.max(least, Math.floor(inner / cell))`
  pub cells_of : W → W → W → W
  cells_of least inner cell = math_max least (d.floor (d.div inner cell))

  pub font_of : W → W → W
  font_of from_width from_height =
      math_min (number 26)
        (math_max (number 11) (d.round (d.mul (math_min from_width from_height) (d.decimal 92 2))))

  pub compute_terminal_metrics : View W → Metrics W
  unfolding pad_of inner_of cells_of font_of
  compute_terminal_metrics v =
      let pad = pad_of v in
      let inner_w = inner_of (number 200) v.inner_width pad in
      let inner_h = inner_of (number 120) v.inner_height pad in
      let cols = cells_of (number 48) inner_w (d.decimal 82 1) in
      let rows = cells_of (number 14) inner_h (number 18) in
      record {
        cols = cols;
        rows = rows;
        font_size = font_of (d.div inner_w cols) (d.div inner_h rows);
        pad = pad;
      }

  unfoldable pub terminal_size : View W → W × W
  unfolding compute_terminal_metrics
  terminal_size v = let m = compute_terminal_metrics v in (m.cols, m.rows)

  unfoldable pub terminal_font_size : View W → W
  unfolding compute_terminal_metrics
  terminal_font_size v = (compute_terminal_metrics v).font_size
