-- ===== src/Oil/Apk/Samples.antt =====
-- A signed package, and a host that has the key.
use alpenglow.Prelude.{
  ℕ, Text, units, Bool, true, false, ◌≡◌, refl, Option, none, some, List, [], ◌∷◌, if◌then◌else◌,
  take, text_eq,
}
use alpenglow.Oil.FilePath.{components, segments, component_of, components_of, join}
use alpenglow.Oil.Streams.{
  has_second_byte, find_from, find_gzip_stream_starts, read_streams, split_gzip_streams_with_limits,
  split_gzip_streams,
}
use alpenglow.Oil.Streams.Magics.{position}
use alpenglow.Oil.Extract.{regular, Entry, DiskCall, extract_payload}
use alpenglow.Oil.Apk.{
  is_safe_apk_keyname, contains_begin, SignEntry, first_signature, extracted, Host, first_key,
  find_apk_key_in_root, extract_tracked,
}

abbrev pub apk : List ℕ
apk = 0x1f ∷ 0x8b ∷ 1 ∷ 0x1f ∷ 0x8b ∷ 2 ∷ 0x1f ∷ 0x8b ∷ 3 ∷ []

abbrev first_byte : List ℕ → ℕ → Option (List ℕ)
first_byte (a ∷ b ∷ c ∷ bytes) limit = some (take limit (c ∷ []))
first_byte _ limit = none

abbrev key_file : Text → Option Text
key_file path =
    if text_eq path (units "/etc/apk/keys/dev.pub") then some (units "-BEGIN-") else none

abbrev signed : List ℕ → Option (List (Option SignEntry))
signed bytes = some (some (record { path = units ".SIGN.RSA.dev"; content = some (7 ∷ []) }) ∷ [])

abbrev pub payload : List ℕ → List Entry
payload bytes = record { path = units "bin/tool"; kind = regular; link_name = none } ∷ []

abbrev pub works : List DiskCall → DiskCall → Bool
works calls c = true

abbrev pub host : Host
host = record {
  read_text = key_file;
  insecure_mode = false;
  memchr = position;
  read_gzip = first_byte;
  sign_entries = signed;
  payload_entries = payload;
  verify_apk_signature = λ bytes sig pem. true;
  works = works;
}

-- The package is extracted anywhere.
pub extracts :
    (dest_dir : Text)
    → extract_tracked host dest_dir (some 9) (some apk)
      ≡ extracted (extract_payload works dest_dir (payload (3 ∷ [])))
unfolding extract_tracked split_gzip_streams split_gzip_streams_with_limits find_gzip_stream_starts
    find_from read_streams has_second_byte position first_signature find_apk_key_in_root first_key
    is_safe_apk_keyname contains_begin components components_of component_of segments join
extracts dest_dir = refl
