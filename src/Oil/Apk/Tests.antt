-- ===== src/Oil/Apk/Tests.antt =====
-- The theorem on the check of a package at a signed and at an unsigned package.
use alpenglow.Prelude.{Text, units, ◌≡◌, refl, none, some, [], ◌∷◌}
use alpenglow.Oil.Streams.{
  has_second_byte, find_from, find_gzip_stream_starts, read_streams, split_gzip_streams_with_limits,
  split_gzip_streams,
}
use alpenglow.Oil.Streams.Magics.{position}
use alpenglow.Oil.Extract.{extract_payload}
use alpenglow.Oil.Apk.{rejected, no_signature, extract_tracked}
use alpenglow.Oil.Apk.Trust.{ExtractsTrusted, extract_tracked-IsTrusted}
use alpenglow.Oil.Apk.Samples.{apk, payload, works, host, extracts}

abbrev dest_dir : Text
dest_dir = units "/r"

unsigned_is_rejected :
    extract_tracked (record host { sign_entries = λ bytes. none }) dest_dir (some 9) (some apk)
    ≡ rejected no_signature
unfolding extract_tracked split_gzip_streams split_gzip_streams_with_limits find_gzip_stream_starts
    find_from read_streams has_second_byte position
unsigned_is_rejected = refl

extract_tracked-IsTrusted_example :
    ExtractsTrusted host dest_dir (some apk) (extract_payload works dest_dir (payload (3 ∷ [])))
extract_tracked-IsTrusted_example =
    extract_tracked-IsTrusted host dest_dir (some 9) (some apk)
      (extract_payload works dest_dir (payload (3 ∷ []))) (extracts dest_dir)
