-- ===== src/Double/Laws.antt =====
-- What the code relies on in the arithmetic of the engine. Each law is one of IEEE 754 doubles,
-- where every operation rounds an exact result to the nearest double and the two zeros are one number.
use alpenglow.Prelude.{ℕ, ◌≤◌, ◌<◌, ◌≡◌, ◌⊎◌, true, false, arith}
use alpenglow.Double.{Double, number, is_number, math_min, math_max}

infix 4 ◌≼◌
abbrev pub ◌≼◌ : {W : Type 0} ⦃d : Double W⦄ → W → W → Type 0
◌≼◌ ⦃d⦄ x y = d.le x y ≡ true

abbrev pub IsNumber : {W : Type 0} ⦃d : Double W⦄ → W → Type 0
IsNumber x = is_number x ≡ true

abbrev pub IsFinite : {W : Type 0} ⦃d : Double W⦄ → W → Type 0
IsFinite ⦃d⦄ x = d.is_finite x ≡ true

-- The number is above 0.
abbrev pub IsPositive : {W : Type 0} ⦃d : Double W⦄ → W → Type 0
IsPositive ⦃d⦄ x = d.le x (number 0) ≡ false

pub record IsDouble (W : Type 0) ⦃d : Double W⦄ : Type 0 where
  -- The order, and the two ways to be no ordinary number.
  pub le_trans : (x y z : W) → x ≼ y → y ≼ z → x ≼ z
  pub le_antisymm : (x y : W) → x ≼ y → y ≼ x → x ≡ y
  pub le_total : (x y : W) → IsNumber x → IsNumber y → (x ≼ y) ⊎ (y ≼ x)
  pub number_of_le : (x y : W) → x ≼ y → IsNumber x × IsNumber y
  pub number_of_finite : (x : W) → IsFinite x → IsNumber x
  pub finite_between : (x y z : W) → IsFinite x → IsFinite z → x ≼ y → y ≼ z → IsFinite y
  -- Literals are finite, and in the order of the numbers that they write.
  pub decimal-IsFinite : (m k : ℕ) → m ≤ 1000000 → k ≤ 3 → IsFinite (d.decimal m k)
  pub decimal-IsPositive : (m k : ℕ) → 0 < m → m ≤ 1000000 → k ≤ 3 → IsPositive (d.decimal m k)
  pub number_mono : (m n : ℕ) → m ≤ n → n ≤ 1000000 → number {W = W} m ≼ number n
  -- Where an operation is no NaN, and how it compares with 0.
  pub sub-IsNumber : (x y : W) → IsFinite x → IsNumber y → IsNumber (d.sub x y)
  pub sub_le : (x y : W) → IsFinite x → number 0 ≼ y → d.sub x y ≼ x
  pub mul-IsNumber : (x y : W) → IsNumber x → IsFinite y → IsPositive y → IsNumber (d.mul x y)
  pub mul_nonneg : (x y : W) → number 0 ≼ x → IsFinite y → IsPositive y → number 0 ≼ d.mul x y
  pub div-IsNumber : (x y : W) → IsFinite x → IsNumber y → IsPositive y → IsNumber (d.div x y)
  pub floor-IsNumber : (x : W) → IsNumber x → IsNumber (d.floor x)
  pub round-IsNumber : (x : W) → IsNumber x → IsNumber (d.round x)

module _ {W : Type 0} ⦃d : Double W⦄ (laws : IsDouble W) where
  pub le-math_max_left : (x y : W) → IsNumber x → IsNumber y → x ≼ math_max x y
  unfolding math_max
  le-math_max_left x y h k = ground arith

  le-math_max_right : (x y : W) → IsNumber x → IsNumber y → y ≼ math_max x y
  unfolding math_max
  le-math_max_right x y h k = ground (arith, laws.le_total x y)

  math_max-le : (x y z : W) → x ≼ z → y ≼ z → IsNumber x → IsNumber y → math_max x y ≼ z
  unfolding math_max
  math_max-le x y z h k hx hy = ground arith

  math_min-le_left : (x y : W) → IsNumber x → IsNumber y → math_min x y ≼ x
  unfolding math_min
  math_min-le_left x y h k = ground arith

  math_min-le_right : (x y : W) → IsNumber x → IsNumber y → math_min x y ≼ y
  unfolding math_min
  math_min-le_right x y h k = ground (arith, laws.le_total x y)

  le-math_min : (x y z : W) → z ≼ x → z ≼ y → IsNumber x → IsNumber y → z ≼ math_min x y
  unfolding math_min
  le-math_min x y z h k hx hy = ground arith

  math_max-IsNumber : (x y : W) → IsNumber x → IsNumber y → IsNumber (math_max x y)
  unfolding math_max
  math_max-IsNumber x y h k = ground arith

  pub math_min-IsNumber : (x y : W) → IsNumber x → IsNumber y → IsNumber (math_min x y)
  unfolding math_min
  math_min-IsNumber x y h k = ground arith

  -- `Math.min(hi, Math.max(lo, x))` and `Math.max(lo, Math.min(hi, x))` lie in the range.
  pub min_max_bounds :
      (lo hi x : W)
      → lo ≼ hi
      → IsNumber x
      → (lo ≼ math_min hi (math_max lo x)) × (math_min hi (math_max lo x) ≼ hi)
  min_max_bounds lo hi x le n =
      let (l, h) = laws.number_of_le lo hi le in
      let m = math_max-IsNumber lo x l n in
      (
        le-math_min hi (math_max lo x) lo le (le-math_max_left lo x l n) h m,
        math_min-le_left hi (math_max lo x) h m,
      )

  pub max_min_bounds :
      (lo hi x : W)
      → lo ≼ hi
      → IsNumber x
      → (lo ≼ math_max lo (math_min hi x)) × (math_max lo (math_min hi x) ≼ hi)
  max_min_bounds lo hi x le n =
      let (l, h) = laws.number_of_le lo hi le in
      let m = math_min-IsNumber hi x h n in
      (
        le-math_max_left lo (math_min hi x) l m,
        math_max-le lo (math_min hi x) hi le (math_min-le_left hi x h n) l m,
      )

  -- A value in the range is left as it is.
  pub clamp_of_mem : (lo hi x : W) → lo ≼ x → x ≼ hi → math_max lo (math_min hi x) ≡ x
  unfolding math_max math_min
  clamp_of_mem lo hi x h k = ground (arith, laws.number_of_le lo x, laws.number_of_le x hi)

  -- A maximum is finite where both sides are bounded by finite numbers.
  pub math_max-IsFinite :
      (x y z : W) → IsFinite x → IsFinite z → IsNumber y → y ≼ z → IsFinite (math_max x y)
  unfolding math_max
  math_max-IsFinite x y z hx hz n le =
      ground (arith, laws.finite_between x y z hx hz, laws.number_of_finite x hx)
