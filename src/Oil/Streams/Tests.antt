-- ===== src/Oil/Streams/Tests.antt =====
-- The theorems on the streams at a small package; the decoder copies what follows the two bytes, up to the
-- next stream.
use alpenglow.Prelude.{ℕ, ◌<◌, ◌≤◌, ◌≡◌, refl, Option, none, some, List, [], ◌∷◌, arith, take}
use alpenglow.Oil.Streams.{
  has_second_byte, streams, failed, stream_too_large, find_from, find_gzip_stream_starts,
  read_streams, split_gzip_streams_with_limits,
}
use alpenglow.Oil.Streams.Magics.{position, magics}
use alpenglow.Oil.Streams.Bounds.{IsWithin, split_gzip_streams-IsWithin}

abbrev apk : List ℕ
apk = 0x1f ∷ 0x8b ∷ 1 ∷ 0x1f ∷ 0x8b ∷ 2 ∷ 0x1f ∷ 0x8b ∷ 3 ∷ []

-- One byte to a stream.
abbrev first_byte : List ℕ → ℕ → Option (List ℕ)
first_byte (a ∷ b ∷ c ∷ bytes) limit = some (take limit (c ∷ []))
first_byte _ limit = none

is_position : (byte : ℕ) (bytes : List ℕ) → position byte bytes ≡ position byte bytes
is_position byte bytes = refl

splits :
    split_gzip_streams_with_limits position first_byte 8 9 apk 3
    ≡ streams (1 ∷ []) (2 ∷ []) (3 ∷ [])
unfolding split_gzip_streams_with_limits find_gzip_stream_starts find_from read_streams position
    has_second_byte
splits = refl

too_large_stops :
    split_gzip_streams_with_limits position first_byte 0 9 apk 3 ≡ failed (stream_too_large 1)
unfolding split_gzip_streams_with_limits find_gzip_stream_starts find_from read_streams position
    has_second_byte
too_large_stops = refl

one_is_given : 0 < 1
one_is_given = omega arith

split_gzip_streams-IsWithin_example :
    IsWithin 8 9 (split_gzip_streams_with_limits position first_byte 8 9 apk 3)
split_gzip_streams-IsWithin_example =
    split_gzip_streams-IsWithin position first_byte 8 9 is_position apk

three_places : magics 0 apk ≡ 0 ∷ 3 ∷ 6 ∷ []
unfolding magics
three_places = refl

within : 9 ≤ 9
within = omega arith

one_within : 1 ≤ 8
one_within = omega arith

three_within : 3 ≤ 9
three_within = omega arith
