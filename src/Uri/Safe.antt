-- ===== src/Uri/Safe.antt =====
-- An encoded component cannot end a path segment or a query parameter.
use alpenglow.Prelude.{
  ℕ, ◌/◌, ◌%◌, ◌<◌, Text, ◌≡◌, refl, Bool, true, ◌||◌, some, none, Option, arith,
}
use alpenglow.Prelude.{List, [], ◌∷◌, all, all-append, All, ◌==◌, IsText}
use mathlib.Core.Option
use mathlib.Core.Option.{map-eq-some_iff}
use alpenglow.Uri.{unreserved, is_high, is_low, join_pair, code_points, utf8, hex_digit, percent}
use alpenglow.Uri.WellFormed.{
  WellFormed, done, unit, pair, code_points-nil, code_points-unit, code_points-pair,
  code_points_sound,
}
use alpenglow.Uri.{escape, escape_all, encode_uri_component}

-- Letters, digits, the marks that stay, and `%`.
abbrev pub is_component_unit : ℕ → Bool
is_component_unit c = unreserved c || c == b'%'

hex_digit-unreserved : (n : ℕ) → n < 16 → unreserved (hex_digit n) ≡ true
unfolding unreserved hex_digit
hex_digit-unreserved n h = ground arith

percent-safe : (bs : List ℕ) → All (λ b. b < 256) bs → all is_component_unit (percent bs) ≡ true
unfolding percent
percent-safe [] h = refl
percent-safe (b ∷ bs) (p, h) =
    ground (arith, hex_digit-unreserved (b / 16), hex_digit-unreserved (b % 16), percent-safe bs h)

pub utf8-octets : (v : ℕ) → v < 0x110000 → All (λ b. b < 256) (utf8 v)
unfolding utf8
utf8-octets v h = ground arith

escape-safe : (v : ℕ) → v < 0x110000 → all is_component_unit (escape v) ≡ true
unfolding escape
escape-safe v h = ground (arith, percent-safe (utf8 v) (utf8-octets v h))

escape_all-safe :
    (vs : List ℕ) → All (λ v. v < 0x110000) vs → all is_component_unit (escape_all vs) ≡ true
unfolding escape_all
escape_all-safe [] h = refl
escape_all-safe (v ∷ vs) (p, h) = ground (
  arith,
  all-append is_component_unit (escape v) (escape_all vs),
  escape-safe v p,
  escape_all-safe vs h,
)

-- Nothing is claimed of a text that is not well-formed.
abbrev AllPoints : Option (List ℕ) → Type 0
AllPoints none = Unit
AllPoints (some ps) = All (λ v. v < 0x110000) ps

AllPoints-map :
    (v : ℕ) (o : Option (List ℕ))
    → v < 0x110000
    → AllPoints o
    → AllPoints (Option.map (λ ps. v ∷ ps) o)
AllPoints-map v none p h = tt
AllPoints-map v (some ps) p h = (p, h)

join_pair-bounded : (c d : ℕ) → is_high c ≡ true → is_low d ≡ true → join_pair c d < 0x110000
unfolding is_high is_low
join_pair-bounded c d h l = ground arith

code_points-AllPoints : {t : Text} → WellFormed t → IsText t → AllPoints (code_points t)
code_points-AllPoints done h = rw code_points-nil tt
code_points-AllPoints (unit {c} {t} high low w) (p, h) =
    rw (code_points-unit c t high low)
      (AllPoints-map c (code_points t) (omega arith) (code_points-AllPoints w h))
code_points-AllPoints (pair {high = c} {low = d} {t} hc lc ld w) (p, (q, h)) =
    rw (code_points-pair c d t hc lc ld) (
      AllPoints-map (join_pair c d) (code_points t) (join_pair-bounded c d hc ld)
        (code_points-AllPoints w h))

pub code_points-bounded :
    (t : Text) {ps : List ℕ} → IsText t → code_points t ≡ some ps → All (λ v. v < 0x110000) ps
code_points-bounded t h e = rw e at (code_points-AllPoints (code_points_sound t (λ n. cc)) h)

-- What `encodeURIComponent` returns for a text of UTF-16 code units consists of the unreserved ASCII
-- characters and `%`.
pub encode_uri_component-safe :
    (t : Text) {u : Text}
    → IsText t
    → encode_uri_component t ≡ some u
    → all is_component_unit u ≡ true
unfolding encode_uri_component
encode_uri_component-safe t h e =
    let (ps, found, same) = (map-eq-some_iff escape_all (code_points t)).0 e in
    rw (← same) (escape_all-safe ps (code_points-bounded t h found))
