-- ===== src/Oil/Apk/Trust.antt =====
-- What has been checked before a package is extracted.
use alpenglow.Prelude.{
  ℕ, ◌*◌, Text, true, ◌≡◌, ◌⊎◌, refl, sym, ap, Option, none, some, List, ltb, Bool-cases, inl, inr,
}
use alpenglow.Oil.Streams.{Split, streams, failed, panicked, mib, split_gzip_streams}
use alpenglow.Oil.Extract.{Extracted, extract_payload}
use alpenglow.Oil.Apk.{
  is_safe_apk_keyname, signature_info, Apk, rejected, crashed, extracted, Host,
  find_apk_key_in_root, find_apk_key, with_key, with_signature, with_streams, with_data,
  extract_tracked,
}

module _ (host : Host) where
  -- The payload passes the check of its signature, with a key of a safe name.
  abbrev pub IsSigned : List ℕ → List ℕ → Type 0
  IsSigned signatures payload =
      (keyname : Text) × (sig_bytes : List ℕ) × (pem : Text) × (signature_info
          (host.sign_entries signatures)
        ≡ some (keyname, sig_bytes))
      × (is_safe_apk_keyname keyname ≡ true)
      × (find_apk_key host keyname ≡ some pem)
      × (host.verify_apk_signature payload sig_bytes pem ≡ true)

  -- There is no signature, or no key to check it with.
  abbrev pub IsUncheckable : List ℕ → Type 0
  IsUncheckable signatures =
      (signature_info (host.sign_entries signatures) ≡ none)
      ⊎ ((keyname : Text) × (sig_bytes : List ℕ) × (signature_info (host.sign_entries signatures)
            ≡ some (keyname, sig_bytes))
          × (find_apk_key host keyname ≡ none))

  abbrev pub IsTrusted : List ℕ → List ℕ → Type 0
  IsTrusted signatures payload =
      IsSigned signatures payload ⊎ ((host.insecure_mode ≡ true) × IsUncheckable signatures)

  -- The key was looked for under a safe name.
  safe_of_key :
      (keyname : Text) (pem : Text)
      → find_apk_key host keyname ≡ some pem
      → is_safe_apk_keyname keyname ≡ true
  unfolding find_apk_key_in_root
  safe_of_key keyname pem h = elim (Bool-cases (is_safe_apk_keyname keyname)) [
    | inl safe ↦ safe
    | inr unsafe ↦ cc (rw unsafe at h)
  ]

  abbrev IsExtracted : Text → List ℕ → Extracted → Type 0
  IsExtracted dest_dir payload r =
      r ≡ extract_payload host.works dest_dir (host.payload_entries payload)

  abbrev extracted_of : Extracted → Apk → Extracted
  extracted_of default (rejected e) = default
  extracted_of default crashed = default
  extracted_of default (extracted r) = r

  same_extracted : {r q : Extracted} → extracted q ≡ extracted r → r ≡ q
  same_extracted {r} e = ap (extracted_of r) (sym e)

  module _ (dest_dir : Text) (signatures payload : List ℕ) (r : Extracted) where
    after_key :
        (keyname : Text) (sig_bytes : List ℕ) (key : Option Text)
        → signature_info (host.sign_entries signatures) ≡ some (keyname, sig_bytes)
        → find_apk_key host keyname ≡ key
        → with_key host dest_dir payload keyname sig_bytes key ≡ extracted r
        → IsExtracted dest_dir payload r × IsTrusted signatures payload
    after_key keyname sig_bytes (some pem) s k h =
        elim (Bool-cases (host.verify_apk_signature payload sig_bytes pem)) [
          | inl valid ↦ (
            same_extracted (rw valid at h),
            inl (keyname, sig_bytes, pem, s, safe_of_key keyname pem k, k, valid),
          )
          | inr bad ↦ cc (rw bad at h)
        ]
    after_key keyname sig_bytes none s k h = elim (Bool-cases host.insecure_mode) [
      | inl insecure ↦
          (same_extracted (rw insecure at h), inr (insecure, inr (keyname, sig_bytes, s, k)))
      | inr secure ↦ cc (rw secure at h)
    ]

    after_signature :
        (signature : Option (Text × List ℕ))
        → signature_info (host.sign_entries signatures) ≡ signature
        → with_signature host dest_dir payload signature ≡ extracted r
        → IsExtracted dest_dir payload r × IsTrusted signatures payload
    after_signature (some (keyname, sig_bytes)) s h =
        after_key keyname sig_bytes (find_apk_key host keyname) s refl h
    after_signature none s h = elim (Bool-cases host.insecure_mode) [
      | inl insecure ↦ (same_extracted (rw insecure at h), inr (insecure, inl s))
      | inr secure ↦ cc (rw secure at h)
    ]

  -- What the extraction was of: the third of the streams of the file.
  abbrev pub ExtractsTrusted : Text → Option (List ℕ) → Extracted → Type 0
  ExtractsTrusted dest_dir contents r =
      (bytes signatures control payload : List ℕ) × (contents ≡ some bytes)
      × (split_gzip_streams host.memchr host.read_gzip bytes 3 ≡ streams signatures control payload)
      × (r ≡ extract_payload host.works dest_dir (host.payload_entries payload))
      × IsTrusted signatures payload

  after_split :
      (dest_dir : Text) (bytes : List ℕ) (r : Extracted) (split : Split)
      → split_gzip_streams host.memchr host.read_gzip bytes 3 ≡ split
      → with_streams host dest_dir split ≡ extracted r
      → ExtractsTrusted dest_dir (some bytes) r
  after_split dest_dir bytes r (streams signatures control payload) s h =
      let (is_payload, trusted) =
        after_signature dest_dir signatures payload r
          (signature_info (host.sign_entries signatures)) refl h in
      (bytes, signatures, control, payload, refl, s, is_payload, trusted)
  after_split dest_dir bytes r (failed e) s h = cc
  after_split dest_dir bytes r panicked s h = cc

  after_data :
      (dest_dir : Text) (contents : Option (List ℕ)) (r : Extracted)
      → with_data host dest_dir contents ≡ extracted r
      → ExtractsTrusted dest_dir contents r
  after_data dest_dir none r h = cc
  after_data dest_dir (some bytes) r h =
      after_split dest_dir bytes r (split_gzip_streams host.memchr host.read_gzip bytes 3) refl h

  -- A package comes to be extracted, whatever then becomes of it, only if its file splits into three
  -- streams and either the third passes the check of the signature in the first, with a key that was
  -- found under a safe name, or the insecure mode is on and there is no signature or no key for it. What
  -- is extracted is the third stream.
  pub extract_tracked-IsTrusted :
      (dest_dir : Text) (file_length : Option ℕ) (contents : Option (List ℕ)) (r : Extracted)
      → extract_tracked host dest_dir file_length contents ≡ extracted r
      → ExtractsTrusted dest_dir contents r
  unfolding extract_tracked
  extract_tracked-IsTrusted dest_dir none contents r h = cc
  extract_tracked-IsTrusted dest_dir (some file_length) contents r h =
      elim (Bool-cases (ltb (2048 * mib) file_length)) [
        | inl big ↦ cc (rw big at h)
        | inr small ↦ after_data dest_dir contents r (rw small at h)
      ]
