-- ===== src/Double/Fixed.antt =====
-- The laws can be met: thousandths, with `none` for NaN and no numbers below 0. The tests run
-- on these numbers.
use alpenglow.Prelude.{
  ℕ, suc, zero, ◌+◌, ◌-◌, ◌*◌, ◌/◌, ◌^◌, Text, units, Bool, digits_of, true, false,
}
use alpenglow.Prelude.{Option, none, some, [], ◌∷◌, leb, ◌==◌, if◌then◌else◌, ◌&&◌, arith}
use alpenglow.Prelude.{◌≤◌, ◌<◌}
use alpenglow.Double.{Double}
use alpenglow.Double.Laws.{IsDouble, IsPositive}

abbrev pub Fixed : Type 0
Fixed = Option ℕ

abbrev lift : (ℕ → ℕ → ℕ) → Fixed → Fixed → Fixed
lift f (some a) (some b) = some (f a b)
lift f _ _ = none

abbrev both : (ℕ → ℕ → Bool) → Fixed → Fixed → Bool
both f (some a) (some b) = f a b
both f _ _ = false

abbrev quotient : Fixed → Fixed → Fixed
quotient (some a) (some b) = if b == 0 then none else some (a * 1000 / b)
quotient _ _ = none

abbrev map_fixed : (ℕ → ℕ) → Fixed → Fixed
map_fixed f (some a) = some (f a)
map_fixed f none = none

abbrev is_some : Fixed → Bool
is_some (some _) = true
is_some none = false

unfoldable pub print : Fixed → Text
unfolding digits_of
print none = units "NaN"
print (some n) = digits_of 20 (n / 1000)

abbrev pub parse_from : ℕ → Text → Fixed
parse_from n [] = some (n * 1000)
parse_from n (c ∷ t) =
    let rest = parse_from (n * 10 + (c - 48)) t in if leb 48 c && leb c 57 then rest else none

instance abbrev pub fixed_double : Double Fixed
fixed_double = record {
  decimal = λ m k. some (m * 1000 / 10 ^ k);
  nan = none;
  add = lift ◌+◌;
  sub = lift ◌-◌;
  mul = lift (λ a b. a * b / 1000);
  div = quotient;
  floor = map_fixed (λ a. a / 1000 * 1000);
  round = map_fixed (λ a. (a + 500) / 1000 * 1000);
  le = both leb;
  is_finite = is_some;
  of_text = parse_from 0;
  to_text = print;
}

decimal-IsPositive : (m k : ℕ) → 0 < m → k ≤ 3 → IsPositive (fixed_double.decimal m k)
decimal-IsPositive m zero p h = ground arith
decimal-IsPositive m (suc zero) p h = ground arith
decimal-IsPositive m (suc (suc zero)) p h = ground arith
decimal-IsPositive m (suc (suc (suc zero))) p h = ground arith
decimal-IsPositive m (suc (suc (suc (suc k)))) p h = absurd (omega arith)

pub Fixed-IsDouble : IsDouble Fixed
Fixed-IsDouble = record {
  le_trans = λ x y z. ground arith;
  le_antisymm = λ x y. ground arith;
  le_total = λ x y. ground arith;
  number_of_le = λ x y. ground arith;
  number_of_finite = λ x. ground arith;
  finite_between = λ x y z. ground arith;
  decimal-IsFinite = λ m k _ _. ground arith;
  decimal-IsPositive = λ m k p _ h. decimal-IsPositive m k p h;
  number_mono = λ m n. ground arith;
  sub-IsNumber = λ x y. ground arith;
  sub_le = λ x y. ground arith;
  mul-IsNumber = λ x y. ground arith;
  mul_nonneg = λ x y. ground arith;
  div-IsNumber = λ x y. ground arith;
  floor-IsNumber = λ x. ground arith;
  round-IsNumber = λ x. ground arith;
}
