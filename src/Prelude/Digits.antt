-- ===== src/Prelude/Digits.antt =====
-- Decimal digits.
use Prim.Native.Nat.{ℕ, zero, suc, ◌+◌, ◌/◌, ◌%◌}
use mathlib.Core.List.{[], ◌∷◌, ◌++◌}
use alpenglow.Prelude.Tests.{ltb, if◌then◌else◌}
use alpenglow.Prelude.Strings.{Text}

-- The decimal digits of a number, with fuel for each digit.
unfoldable pub digits_of : ℕ → ℕ → Text
digits_of zero n = []
digits_of (suc fuel) n =
    let high = digits_of fuel (n / 10) in
    if ltb n 10 then (n + 48) ∷ [] else high ++ ((n % 10 + 48) ∷ [])

-- A 64-bit number has at most 20 digits.
unfoldable pub decimal : ℕ → Text
unfolding digits_of
decimal n = digits_of 20 n
