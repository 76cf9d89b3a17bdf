-- ===== src/Uri.antt =====
-- `encodeURIComponent` of ECMAScript, which site/src/shell.js applies to the release version and
-- to the build id. `none` is the URIError that it throws on a lone surrogate.
pub mod Safe
pub mod WellFormed
pub mod Decode
mod Tests
use mathlib.Core.Option
use alpenglow.Prelude.{ℕ, ◌+◌, ◌-◌, ◌*◌, ◌/◌, ◌%◌, Text, Bool, ◌||◌, ◌&&◌, Option, none, some}
use alpenglow.Prelude.{List, [], ◌∷◌, ◌++◌, leb, ltb, ◌==◌, if◌then◌else◌}

-- The characters that stay as they are: letters, digits and - _ . ! ~ * ' ( )
pub unreserved : ℕ → Bool
unreserved c =
    (leb b'A' c && leb c b'Z')
    || (leb b'a' c && leb c b'z')
    || (leb b'0' c && leb c b'9')
    || c == b'-'
    || c == b'_'
    || c == b'.'
    || c == b'!'
    || c == b'~'
    || c == b'*'
    || c == 39
    || c == b'('
    || c == b')'

pub is_high : ℕ → Bool
is_high c = leb 0xd800 c && leb c 0xdbff

pub is_low : ℕ → Bool
is_low c = leb 0xdc00 c && leb c 0xdfff

abbrev pub join_pair : ℕ → ℕ → ℕ
join_pair high low = (high - 0xd800) * 0x400 + (low - 0xdc00) + 0x10000

-- The code points of a well-formed text.
pub code_points : Text → Option (List ℕ)
code_points [] = some []
code_points (c ∷ []) = if is_high c || is_low c then none else some (c ∷ [])
code_points (c ∷ d ∷ t) =
    let single = Option.map (λ ps. c ∷ ps) (code_points (d ∷ t)) in
    let double = Option.map (λ ps. join_pair c d ∷ ps) (code_points t) in
    if is_low c then none else if is_high c then (if is_low d then double else none) else single

-- The octets of a code point in UTF-8.
pub utf8 : ℕ → List ℕ
utf8 v =
    if ltb v 0x80
    then v ∷ []
    else if ltb v 0x800
    then (0xc0 + v / 64) ∷ (0x80 + v % 64) ∷ []
    else if ltb v 0x10000
    then (0xe0 + v / 4096) ∷ (0x80 + v / 64 % 64) ∷ (0x80 + v % 64) ∷ []
    else (0xf0 + v / 262144) ∷ (0x80 + v / 4096 % 64) ∷ (0x80 + v / 64 % 64) ∷ (0x80 + v % 64) ∷ []

pub hex_digit : ℕ → ℕ
hex_digit n = if ltb n 10 then n + 48 else n + 55

-- `%` and two hexadecimal digits for each octet.
pub percent : List ℕ → Text
percent [] = []
percent (b ∷ bs) = b'%' ∷ hex_digit (b / 16) ∷ hex_digit (b % 16) ∷ percent bs

pub escape : ℕ → Text
escape v = if unreserved v then v ∷ [] else percent (utf8 v)

pub escape_all : List ℕ → Text
escape_all [] = []
escape_all (v ∷ vs) = escape v ++ escape_all vs

unfoldable pub encode_uri_component : Text → Option Text
unfolding code_points escape_all escape percent utf8 hex_digit unreserved is_high is_low
encode_uri_component t = Option.map escape_all (code_points t)
