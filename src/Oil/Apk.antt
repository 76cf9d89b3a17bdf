-- ===== src/Oil/Apk.antt =====
-- system/oil/src/system/extractor/apk.rs, lines 14-86 and 191-208: the extraction of a package, with the
-- check of its signature. The disk, the decoder, the readers of archives and the check itself are
-- parameters.
pub mod Trust
pub mod Samples
mod Tests
use alpenglow.Prelude.{
  ℕ, ◌+◌, ◌*◌, ◌==◌, Text, Bool, true, false, not, Option, none, some, List, [], ◌∷◌, ◌++◌,
  if◌then◌else◌, ltb, ◌&&◌, all, any, text_eq, units, strip_prefix, drop_while, reverse,
}
use alpenglow.Oil.FilePath.{Component, root_dir, cur_dir, parent_dir, normal, components, join}
use alpenglow.Oil.Streams.{Split, streams, failed, panicked, SplitError, mib, split_gzip_streams}
use alpenglow.Oil.Extract.{Entry, DiskCall, Extracted, extract_payload}

abbrev pub is_normal_component : Component → Bool
is_normal_component (normal _) = true
is_normal_component root_dir = false
is_normal_component cur_dir = false
is_normal_component parent_dir = false

-- Lines 19-27.
pub is_safe_apk_keyname : Text → Bool
is_safe_apk_keyname keyname =
    not (text_eq keyname [])
    && not (any (λ c. c == b'/') keyname)
    && not (any (λ c. c == 0x5c) keyname)
    && not (any (λ c. c == 0) keyname)
    && all is_normal_component (components keyname)

-- `contains("BEGIN")`
pub contains_begin : Text → Bool
contains_begin [] = false
contains_begin (c ∷ t) =
    let rest = contains_begin t in
    elim (strip_prefix (units "BEGIN") (c ∷ t)) [ none ↦ rest | some _ ↦ true ]

abbrev pub candidates : Text → List Text
candidates keyname =
    (units "etc/apk/keys/" ++ keyname ++ units ".pub")
    ∷ (units "usr/share/apk/keys/" ++ keyname ++ units ".pub")
    ∷ (units "etc/apk/keys/alpine-devel@lists.alpinelinux.org-" ++ keyname ++ units ".pub")
    ∷ (units "etc/apk/keys/alpine-devel@lists.alpinelinux.org-" ++ keyname ++ units ".pem")
    ∷ []

-- An entry of the archive of signatures, as the reader gives it: its path, and its content if that can be
-- read.
pub record SignEntry : Type 0 where
  pub path : Text
  pub content : Option (List ℕ)

abbrev pub signature_of : Text → Option (List ℕ) → Option (Text × List ℕ)
signature_of keyname none = none
signature_of keyname (some sig) = some (keyname, sig)

-- `trim_end_matches('\0')`
abbrev pub trim_zeros : Text → Text
trim_zeros t = reverse (drop_while (λ c. c == 0) (reverse t))

-- The loop of lines 195-206; an entry that cannot be read is `none`.
pub first_signature : List (Option SignEntry) → Option (Text × List ℕ)
first_signature [] = none
first_signature (none ∷ entries) = none
first_signature (some entry ∷ entries) = elim (strip_prefix (units ".SIGN.RSA.") entry.path) [
  | none ↦ first_signature entries
  | some rest ↦ signature_of (trim_zeros rest) entry.content
]

abbrev pub signature_info : Option (List (Option SignEntry)) → Option (Text × List ℕ)
signature_info none = none
signature_info (some entries) = first_signature entries

pub data ApkError : Type 0 where
  unreadable too_big no_signature bad_signature : ApkError
  no_public_key : Text → ApkError
  not_split : SplitError → ApkError

-- Nothing is done on the disk if the package is rejected.
pub data Apk : Type 0 where
  rejected : ApkError → Apk
  crashed : Apk
  extracted : Extracted → Apk

-- What the code takes from outside of it.
pub record Host : Type 0 where
  pub read_text : Text → Option Text
  pub insecure_mode : Bool
  pub memchr : ℕ → List ℕ → Option ℕ
  pub read_gzip : List ℕ → ℕ → Option (List ℕ)
  pub sign_entries : List ℕ → Option (List (Option SignEntry))
  pub payload_entries : List ℕ → List Entry
  pub verify_apk_signature : List ℕ → List ℕ → Text → Bool
  pub works : List DiskCall → DiskCall → Bool

module _ (host : Host) where
  -- Lines 39-46.
  pub first_key : Text → List Text → Option Text
  first_key root [] = none
  first_key root (candidate ∷ rest) =
      let later = first_key root rest in
      elim (host.read_text (join root candidate)) [
        | none ↦ later
        | some pem ↦ if contains_begin pem then some pem else later
      ]

  pub find_apk_key_in_root : Text → Text → Option Text
  unfolding first_key
  find_apk_key_in_root root keyname =
      if not (is_safe_apk_keyname keyname) then none else first_key root (candidates keyname)

  abbrev pub find_apk_key : Text → Option Text
  find_apk_key keyname = find_apk_key_in_root (units "/") keyname

  abbrev pub extract_data : Text → List ℕ → Apk
  extract_data dest_dir payload =
      extracted (extract_payload host.works dest_dir (host.payload_entries payload))

  -- Lines 66-75.
  abbrev pub with_key : Text → List ℕ → Text → List ℕ → Option Text → Apk
  with_key dest_dir payload keyname sig_bytes (some pem) =
      if host.verify_apk_signature payload sig_bytes pem
      then extract_data dest_dir payload
      else rejected bad_signature
  with_key dest_dir payload keyname sig_bytes none =
      if host.insecure_mode then extract_data dest_dir payload else rejected (no_public_key keyname)

  -- Lines 64-85.
  abbrev pub with_signature : Text → List ℕ → Option (Text × List ℕ) → Apk
  with_signature dest_dir payload (some (keyname, sig_bytes)) =
      with_key dest_dir payload keyname sig_bytes (find_apk_key keyname)
  with_signature dest_dir payload none =
      if not host.insecure_mode then rejected no_signature else extract_data dest_dir payload

  abbrev pub with_streams : Text → Split → Apk
  with_streams dest_dir (streams signatures control payload) =
      with_signature dest_dir payload (signature_info (host.sign_entries signatures))
  with_streams dest_dir (failed e) = rejected (not_split e)
  with_streams dest_dir panicked = crashed

  abbrev pub with_data : Text → Option (List ℕ) → Apk
  with_data dest_dir none = rejected unreadable
  with_data dest_dir (some bytes) =
      with_streams dest_dir (split_gzip_streams host.memchr host.read_gzip bytes 3)

  -- `extract_tracked`, for the length of the file and its bytes, if they can be read.
  pub extract_tracked : Text → Option ℕ → Option (List ℕ) → Apk
  extract_tracked dest_dir none contents = rejected unreadable
  extract_tracked dest_dir (some file_length) contents =
      if ltb (2048 * mib) file_length then rejected too_big else with_data dest_dir contents
