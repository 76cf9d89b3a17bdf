-- ===== src/Shell/PartTests.antt =====
-- The theorems on the metrics, the release link and the keyboard at concrete inputs.
use alpenglow.Prelude.{Text, units, refl, map}
use alpenglow.Double.Fixed.{fixed_double, Fixed-IsDouble}
use alpenglow.Shell.State.{Link}
use alpenglow.Shell.Metrics.{compute_terminal_metrics}
use alpenglow.Shell.Metrics.Bounds.{InLimits, compute_terminal_metrics-InLimits}
use alpenglow.Shell.Keyboard.Keys.{lower_unit, LowersAscii}
use alpenglow.Shell.Samples.{sample_view}

abbrev sample_link : Link
sample_link = record { label = units "latest release"; href = units "/releases/latest" }

abbrev lower : Text → Text
lower = map lower_unit

lower-LowersAscii : LowersAscii lower
lower-LowersAscii t h = refl

compute_terminal_metrics-InLimits_example :
    InLimits Fixed-IsDouble (compute_terminal_metrics sample_view)
compute_terminal_metrics-InLimits_example =
    compute_terminal_metrics-InLimits Fixed-IsDouble sample_view
      (record { width = refl; height = refl })
