-- ===== src/Shell/Status.antt =====
-- `setStatus` (lines 59-67).
use alpenglow.Prelude.{Text, units, none, some, ◌++◌, if◌then◌else◌}
use mathlib.Core.Option
use alpenglow.Double.{Double, number, math_min, math_max, or_number}
use alpenglow.Shell.State.{Page, Meter}

module _ {W : Type 0} ⦃d : Double W⦄ where
  unfoldable pub show_percent : W → Meter W
  show_percent percent =
      let value = math_max (number 0) (math_min (number 100) percent) in
      record { value = value; label = d.to_text (d.round value) ++ units "%" }

  unfoldable pub set_status : Text → W → Page W → Page W
  unfolding show_percent
  set_status message percent page = record page {
    boot_message = Option.map (λ _. message) page.boot_message;
    boot_progress =
        if d.is_finite percent
        then Option.map (λ _. show_percent percent) page.boot_progress
        else page.boot_progress;
  }

  -- `bootProgress?.value || 0`
  unfoldable pub current_progress : Page W → W
  current_progress page = elim page.boot_progress [
    | none ↦ number 0
    | some meter ↦ or_number meter.value (number 0)
  ]
