-- ===== src/Double.antt =====
-- JavaScript numbers: a type with the operations that the site's code applies to numbers. The
-- arithmetic of the engine (IEEE 754 binary64) is a parameter of the development.
pub mod Laws
pub mod Fixed
use alpenglow.Prelude.{ℕ, Text, Bool, true, not, ◌&&◌, if◌then◌else◌}

pub record Double (W : Type 0) : Type 0 where
  -- The literal `m` / 10 ^ `k`.
  pub decimal : ℕ → ℕ → W
  pub nan : W
  pub add : W → W → W
  pub sub : W → W → W
  pub mul : W → W → W
  pub div : W → W → W
  -- `Math.floor` and `Math.round`
  pub floor : W → W
  pub round : W → W
  -- `<=`, false where a side is NaN
  pub le : W → W → Bool
  -- `Number.isFinite`
  pub is_finite : W → Bool
  -- `Number(text)` and `${number}`
  pub of_text : Text → W
  pub to_text : W → Text

module _ {W : Type 0} ⦃d : Double W⦄ where
  abbrev pub number : ℕ → W
  number n = d.decimal n 0

  abbrev pub is_number : W → Bool
  is_number x = d.le x x

  -- `===` on numbers
  abbrev pub same : W → W → Bool
  same x y = d.le x y && d.le y x

  -- `if (x)` on a number
  abbrev pub truthy : W → Bool
  truthy x = is_number x && not (same x (number 0))

  -- `x || y` on numbers
  abbrev pub or_number : W → W → W
  or_number x y = if truthy x then x else y

  -- `Math.min` and `Math.max`: NaN if an argument is NaN. The two zeros are not told apart.
  pub math_min : W → W → W
  math_min x y = if is_number x && is_number y then (if d.le y x then y else x) else d.nan

  pub math_max : W → W → W
  math_max x y = if is_number x && is_number y then (if d.le x y then y else x) else d.nan
