-- ===== src/Uri/Decode.antt =====
-- A decoder for encoded components, as the reader of the URL applies it: percent decoding, then
-- UTF-8, then UTF-16. It recovers the text.
use alpenglow.Prelude.{
  ℕ, zero, suc, ◌+◌, ◌-◌, ◌*◌, ◌/◌, ◌%◌, ◌<◌, ◌≤◌, Text, IsText, ◌≡◌, refl, true, inl, inr,
}
use alpenglow.Prelude.{some, none, Option, arith, List, [], ◌∷◌, ◌++◌, All}
use alpenglow.Prelude.{Bool-cases, ltb, ◌==◌, if◌then◌else◌, ap, ◌∙◌, sym}
use mathlib.Core.Option
use mathlib.Core.Option.{map-eq-some_iff}
use alpenglow.Uri.{unreserved, is_high, is_low, join_pair, code_points, utf8, hex_digit, percent}
use alpenglow.Uri.{escape, escape_all, encode_uri_component}
use alpenglow.Uri.WellFormed.{
  WellFormed, done, unit, pair, code_points-nil, code_points-unit, code_points-pair,
  code_points_sound,
}
use alpenglow.Uri.Safe.{utf8-octets, code_points-bounded}

hex_value : ℕ → ℕ
hex_value c = if ltb c 58 then c - 48 else c - 55

octets : Text → List ℕ
octets [] = []
octets (c ∷ []) = c ∷ []
octets (c ∷ d ∷ []) = c ∷ d ∷ []
octets (c ∷ h ∷ l ∷ t) =
    let escaped = (hex_value h * 16 + hex_value l) ∷ octets t in
    let plain = c ∷ octets (h ∷ l ∷ t) in if c == b'%' then escaped else plain

hex_value-hex_digit : (n : ℕ) → n < 16 → hex_value (hex_digit n) ≡ n
unfolding hex_value hex_digit
hex_value-hex_digit n h = ground arith

octets-percent :
    (bs : List ℕ) (t : Text) → All (λ b. b < 256) bs → octets (percent bs ++ t) ≡ bs ++ octets t
unfolding octets percent
octets-percent [] t h = refl
octets-percent (b ∷ bs) t (p, h) =
    ground
      (arith, hex_value-hex_digit (b / 16), hex_value-hex_digit (b % 16), octets-percent bs t h)

octets-unreserved : (c : ℕ) (t : Text) → unreserved c ≡ true → octets (c ∷ t) ≡ c ∷ octets t
unfolding octets unreserved
octets-unreserved c [] h = refl
octets-unreserved c (d ∷ []) h = refl
octets-unreserved c (d ∷ e ∷ t) h = ground arith

utf8-ascii : (v : ℕ) → unreserved v ≡ true → utf8 v ≡ v ∷ []
unfolding utf8 unreserved
utf8-ascii v h = ground arith

utf8_all : List ℕ → List ℕ
utf8_all [] = []
utf8_all (v ∷ vs) = utf8 v ++ utf8_all vs

octets-escape : (v : ℕ) (t : Text) → v < 0x110000 → octets (escape v ++ t) ≡ utf8 v ++ octets t
unfolding escape
octets-escape v t h = elim (Bool-cases (unreserved v)) [
  | inl plain ↦
      rw plain (octets-unreserved v t plain ∙ ap (λ bs. bs ++ octets t) (sym (utf8-ascii v plain)))
  | inr other ↦ rw other (octets-percent (utf8 v) t (utf8-octets v h))
]

octets-escape_all :
    (vs : List ℕ) → All (λ v. v < 0x110000) vs → octets (escape_all vs) ≡ utf8_all vs
unfolding escape_all octets utf8_all
octets-escape_all [] h = refl
octets-escape_all (v ∷ vs) (p, h) =
    octets-escape v (escape_all vs) p ∙ ap (λ bs. utf8 v ++ bs) (octets-escape_all vs h)

-- The code points of a sequence of octets in UTF-8: the bits read so far of the current one, and
-- how many octets it still needs.
read_utf8 : ℕ → ℕ → List ℕ → List ℕ
read_utf8 bits more [] = []
read_utf8 bits zero (b ∷ t) =
    let one = b ∷ read_utf8 0 0 t in
    let two = read_utf8 (b - 0xc0) 1 t in
    let three = read_utf8 (b - 0xe0) 2 t in
    let four = read_utf8 (b - 0xf0) 3 t in
    if ltb b 0x80 then one else if ltb b 0xe0 then two else if ltb b 0xf0 then three else four
read_utf8 bits (suc zero) (b ∷ t) = (bits * 64 + (b - 0x80)) ∷ read_utf8 0 0 t
read_utf8 bits (suc (suc more)) (b ∷ t) = read_utf8 (bits * 64 + (b - 0x80)) (suc more) t

read_lead_two :
    (b : ℕ) (t : List ℕ) → 0x80 ≤ b → b < 0xe0 → read_utf8 0 0 (b ∷ t) ≡ read_utf8 (b - 0xc0) 1 t
unfolding read_utf8
read_lead_two b t h k = ground arith

read_lead_three :
    (b : ℕ) (t : List ℕ) → 0xe0 ≤ b → b < 0xf0 → read_utf8 0 0 (b ∷ t) ≡ read_utf8 (b - 0xe0) 2 t
unfolding read_utf8
read_lead_three b t h k = ground arith

read_lead_four : (b : ℕ) (t : List ℕ) → 0xf0 ≤ b → read_utf8 0 0 (b ∷ t) ≡ read_utf8 (b - 0xf0) 3 t
unfolding read_utf8
read_lead_four b t h = ground arith

read_last :
    (bits b : ℕ) (t : List ℕ)
    → read_utf8 bits 1 (b ∷ t) ≡ (bits * 64 + (b - 0x80)) ∷ read_utf8 0 0 t
unfolding read_utf8
read_last bits b t = refl

read_two_more :
    (bits b : ℕ) (t : List ℕ) → read_utf8 bits 2 (b ∷ t) ≡ read_utf8 (bits * 64 + (b - 0x80)) 1 t
unfolding read_utf8
read_two_more bits b t = refl

read_three_more :
    (bits b : ℕ) (t : List ℕ) → read_utf8 bits 3 (b ∷ t) ≡ read_utf8 (bits * 64 + (b - 0x80)) 2 t
unfolding read_utf8
read_three_more bits b t = refl

read_utf8-utf8 :
    (v : ℕ) (t : List ℕ) → v < 0x110000 → read_utf8 0 0 (utf8 v ++ t) ≡ v ∷ read_utf8 0 0 t
unfolding utf8
read_utf8-utf8 v t h = elim (Bool-cases (ltb v 0x80)) [
  | inl one ↦ rw one (unfold read_utf8 in rw one)
  | inr a ↦ elim (Bool-cases (ltb v 0x800)) [
    | inl two ↦
        rw (a, two)
          (read_lead_two _ _ (ground arith) (ground arith)
            ∙ read_last (0xc0 + v / 64 - 0xc0) (0x80 + v % 64) t
            ∙ ap (λ p. p ∷ read_utf8 0 0 t) (omega arith))
    | inr b ↦ elim (Bool-cases (ltb v 0x10000)) [
      | inl three ↦
          rw (a, b, three)
            (read_lead_three _ _ (ground arith) (ground arith)
              ∙ read_two_more (0xe0 + v / 4096 - 0xe0) (0x80 + v / 64 % 64) _
              ∙ read_last _ (0x80 + v % 64) t
              ∙ ap (λ p. p ∷ read_utf8 0 0 t) (omega arith))
      | inr four ↦
          rw (a, b, four)
            (read_lead_four _ _ (ground arith)
              ∙ read_three_more (0xf0 + v / 262144 - 0xf0) (0x80 + v / 4096 % 64) _
              ∙ read_two_more _ (0x80 + v / 64 % 64) _
              ∙ read_last _ (0x80 + v % 64) t
              ∙ ap (λ p. p ∷ read_utf8 0 0 t) (omega arith))
    ]
  ]
]

read_utf8-utf8_all : (vs : List ℕ) → All (λ v. v < 0x110000) vs → read_utf8 0 0 (utf8_all vs) ≡ vs
unfolding utf8_all
read_utf8-utf8_all [] h = unfold read_utf8 in refl
read_utf8-utf8_all (v ∷ vs) (p, h) =
    read_utf8-utf8 v (utf8_all vs) p ∙ ap (λ ps. v ∷ ps) (read_utf8-utf8_all vs h)

-- The code units of a sequence of code points.
to_units : List ℕ → Text
to_units [] = []
to_units (v ∷ vs) =
    let rest = to_units vs in
    if ltb v 0x10000
    then v ∷ rest
    else (0xd800 + (v - 0x10000) / 0x400) ∷ (0xdc00 + (v - 0x10000) % 0x400) ∷ rest

UnitsOf : Text → Option (List ℕ) → Type 0
UnitsOf t none = Unit
UnitsOf t (some ps) = to_units ps ≡ t

UnitsOf-unit :
    (c : ℕ) (t : Text) (o : Option (List ℕ))
    → c < 0x10000
    → UnitsOf t o
    → UnitsOf (c ∷ t) (Option.map (λ ps. c ∷ ps) o)
unfolding UnitsOf to_units
UnitsOf-unit c t none p h = tt
UnitsOf-unit c t (some ps) p h = ground arith

UnitsOf-pair :
    (c d : ℕ) (t : Text) (o : Option (List ℕ))
    → is_high c ≡ true
    → is_low d ≡ true
    → UnitsOf t o
    → UnitsOf (c ∷ d ∷ t) (Option.map (λ ps. join_pair c d ∷ ps) o)
unfolding UnitsOf to_units is_high is_low
UnitsOf-pair c d t none p q h = tt
UnitsOf-pair c d t (some ps) p q h = ground arith

code_points-UnitsOf : {t : Text} → WellFormed t → IsText t → UnitsOf t (code_points t)
code_points-UnitsOf done h = rw code_points-nil (unfold UnitsOf to_units in refl)
code_points-UnitsOf (unit {c} {t} high low w) (p, h) =
    rw (code_points-unit c t high low)
      (UnitsOf-unit c t (code_points t) p (code_points-UnitsOf w h))
code_points-UnitsOf (pair {high = c} {low = d} {t} hc lc ld w) (p, (q, h)) =
    rw (code_points-pair c d t hc lc ld)
      (UnitsOf-pair c d t (code_points t) hc ld (code_points-UnitsOf w h))

pub decode_uri_component : Text → Text
decode_uri_component t = to_units (read_utf8 0 0 (octets t))

-- If `encodeURIComponent` returns a text for a text of UTF-16 code units, decoding it gives back
-- the argument.
pub decode-encode :
    (t : Text) {u : Text} → IsText t → encode_uri_component t ≡ some u → decode_uri_component u ≡ t
unfolding encode_uri_component decode_uri_component UnitsOf
decode-encode t h e =
    let (ps, found, same) = (map-eq-some_iff escape_all (code_points t)).0 e in
    let bounded = code_points-bounded t h found in
    ap (λ s. to_units (read_utf8 0 0 (octets s))) (sym same)
    ∙ ap (λ bs. to_units (read_utf8 0 0 bs)) (octets-escape_all ps bounded)
    ∙ ap to_units (read_utf8-utf8_all ps bounded)
    ∙ rw found at (code_points-UnitsOf (code_points_sound t (λ n. cc)) h)
