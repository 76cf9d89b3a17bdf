-- ===== src/Uri/WellFormed.antt =====
-- `encodeURIComponent` throws exactly on a text with a lone surrogate.
use alpenglow.Prelude.{
  ℕ, ◌<◌, All, Text, ◌≡◌, ◌↔◌, refl, true, false, inl, inr, some, none, arith, [], ◌∷◌,
}
use alpenglow.Prelude.{Bool-cases, ◌≢◌}
use mathlib.Core.Option
use alpenglow.Uri.{is_high, is_low, join_pair, code_points, encode_uri_component}

-- Surrogates stand in pairs only, a high one before a low one.
pub data WellFormed : Text → Type 0 where
  done : WellFormed []
  unit :
      {c : ℕ} {t : Text} → is_high c ≡ false → is_low c ≡ false → WellFormed t → WellFormed (c ∷ t)
  pair :
      {high low : ℕ} {t : Text}
      → is_high high ≡ true
      → is_low high ≡ false
      → is_low low ≡ true
      → WellFormed t
      → WellFormed (high ∷ low ∷ t)

pub code_points-nil : code_points [] ≡ some []
unfolding code_points
code_points-nil = refl

pub code_points-unit :
    (c : ℕ) (t : Text)
    → is_high c ≡ false
    → is_low c ≡ false
    → code_points (c ∷ t) ≡ Option.map (λ ps. c ∷ ps) (code_points t)
unfolding code_points
code_points-unit c [] h l = rw (h, l)
code_points-unit c (d ∷ t) h l = rw (l, h)

pub code_points-pair :
    (c d : ℕ) (t : Text)
    → is_high c ≡ true
    → is_low c ≡ false
    → is_low d ≡ true
    → code_points (c ∷ d ∷ t) ≡ Option.map (λ ps. join_pair c d ∷ ps) (code_points t)
unfolding code_points
code_points-pair c d t h l m = rw (l, h, m)

code_points_complete : {t : Text} → WellFormed t → code_points t ≢ none
code_points_complete done = rw code_points-nil (ground arith)
code_points_complete (unit {c} {t} h l w) =
    rw (code_points-unit c t h l) (ground (arith, code_points_complete w))
code_points_complete (pair {high} {low} {t} h l m w) =
    rw (code_points-pair high low t h l m) (ground (arith, code_points_complete w))

pub code_points_sound : (t : Text) → code_points t ≢ none → WellFormed t
unfolding code_points
code_points_sound [] h = done
code_points_sound (c ∷ []) h = unit (ground arith) (ground arith) done
code_points_sound (c ∷ d ∷ t) h = elim (Bool-cases (is_high c)) [
  | inl high ↦ pair high (ground arith) (ground arith) (code_points_sound t (ground arith))
  | inr plain ↦ unit plain (ground arith) (code_points_sound (d ∷ t) (ground arith))
]

-- `encodeURIComponent` returns a text exactly if the surrogates of its argument stand in pairs.
pub encode_uri_component-ne-none_iff : (t : Text) → (encode_uri_component t ≢ none) ↔ WellFormed t
unfolding encode_uri_component
encode_uri_component-ne-none_iff t = (
  λ h. code_points_sound t (unfold code_points in ground arith),
  λ w. ground (arith, code_points_complete w),
)

-- A text of ASCII characters is well-formed.
pub WellFormed-of_ascii : (t : Text) → All (λ c. c < 128) t → WellFormed t
unfolding is_high is_low
WellFormed-of_ascii [] h = done
WellFormed-of_ascii (c ∷ t) (p, h) = unit (ground arith) (ground arith) (WellFormed-of_ascii t h)
