-- ===== src/Uri/Tests.antt =====
-- Texts that are encoded and decoded.
use alpenglow.Prelude.{◌++◌, Text, units, ◌≡◌, refl, none, some, [], ◌∷◌, arith}
use alpenglow.Uri.{encode_uri_component}
use alpenglow.Uri.Decode.{decode_uri_component, decode-encode}

-- "é", and a letter outside the Basic Multilingual Plane
abbrev tag : Text
tag = units "v1 " ++ (0xe9 ∷ 0xd801 ∷ 0xdc00 ∷ [])

abbrev encoded : Text
encoded = units "v1%20%C3%A9%F0%90%90%80"

encode-tag : encode_uri_component tag ≡ some encoded
unfolding encode_uri_component
encode-tag = refl

decodes_tag : decode_uri_component encoded ≡ tag
decodes_tag = decode-encode tag (omega arith) encode-tag

lone_surrogate : encode_uri_component (0xd801 ∷ []) ≡ none
unfolding encode_uri_component
lone_surrogate = refl
