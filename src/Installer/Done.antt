-- ===== src/Installer/Done.antt =====
-- When an installation succeeds.
use mathlib.Core.Path.{subst}
use alpenglow.Installer.Checked.{kind_lem}
use alpenglow.Prelude.{
  ℕ, ◌==◌, leb, ltb, ◌≤◌, Text, Bool, true, false, ◌≡◌, refl, sym, ap, ◌∙◌, Option, none, some,
  List, [], ◌∷◌, if◌then◌else◌, length, take, drop, arith, ◌⊎◌, inl, inr,
}
use alpenglow.Installer.{ok, Metadata, is_file, is_block_device, then_also}
use alpenglow.Installer.Runs.{then_run_passes}
use alpenglow.Installer.Disk.{DiskIdentity}
use alpenglow.Installer.Target.{target_metadata}
use alpenglow.Installer.Image.{
  Answers, Stream, Inspected, inspect, is_block_target, is_other_kind, is_other_node, same_file,
  check_identity, check_output, open_options, open_output, prepare, size_for_device, fitting_size,
  copy, take_stream, check_copied, copy_image, decode_and_copy, flush_and_sync, install_image_inner,
}

-- The image fits on a device: the size that was measured is that of what is read, and there is room.
abbrev pub HasRoom : Answers → Bool → Type 0
HasRoom a compressed =
    ((if compressed then a.decoded_size else a.input_size) ≡ ok (length a.stream.bytes))
    × (c : ℕ) × (a.capacity ≡ ok c)
    × (length a.stream.bytes ≤ c)

-- No call fails, and the checks pass.
pub record IsWilling (a : Answers) (target : Text) (allow_regular_file compressed : Bool)
    (expected : Option DiskIdentity) (before : Inspected) (m : Metadata) : Type 0 where
  pub validated : target_metadata target allow_regular_file a.exists a.target ≡ ok before.target
  pub source : a.source ≡ ok tt
  pub source_metadata : a.source_metadata ≡ ok before.source
  pub source_regular : is_file before.source ≡ true
  pub output : a.output (open_options before.target allow_regular_file) ≡ ok tt
  pub output_metadata : a.output_metadata ≡ ok m
  pub identified : check_identity a.system target m expected ≡ ok tt
  pub kind : is_other_kind (is_block_target before.target) allow_regular_file m ≡ false
  pub same : is_other_node before.target m ≡ false
  pub apart : same_file before.source m ≡ false
  pub rewind_output : a.rewind_output ≡ ok tt
  pub rewind_input : a.rewind_input ≡ ok tt
  pub set_len : a.set_len ≡ ok tt
  pub decoder : a.decoder ≡ ok tt
  pub ending : a.stream.ending ≡ none
  pub write_failure : a.write_failure ≡ none
  pub flush : a.flush ≡ ok tt
  pub sync_all : a.sync_all ≡ ok tt

take-all : (xs : List ℕ) → take (length xs) xs ≡ xs
take-all [] = refl
take-all (x ∷ xs) = ap (λ ys. x ∷ ys) (take-all xs)

drop-all : (xs : List ℕ) → drop (length xs) xs ≡ []
drop-all [] = refl
drop-all (x ∷ xs) = drop-all xs

inspect_succeeds :
    (a : Answers) (target : Text) (allow_regular_file : Bool) (before : Inspected)
    → target_metadata target allow_regular_file a.exists a.target ≡ ok before.target
    → a.source ≡ ok tt
    → a.source_metadata ≡ ok before.source
    → is_file before.source ≡ true
    → inspect a target allow_regular_file ≡ ok before
unfolding inspect
inspect_succeeds a target allow_regular_file before h1 h2 h3 h4 = rw (h1, h2, h3, h4) refl

copy_image_succeeds :
    (a : Answers)
    → a.stream.ending ≡ none
    → a.write_failure ≡ none
    → (copy_image a none).result ≡ ok (length a.stream.bytes)
unfolding copy_image copy
copy_image_succeeds a h1 h2 = rw (h2, h1) refl

leb_same : (n : ℕ) → leb n n ≡ true
leb_same n = ground arith

eq_same : (n : ℕ) → (n == n) ≡ true
eq_same n = ground arith

take_stream-all :
    (stream : Stream)
    → take_stream (length stream.bytes) stream ≡ record { bytes = stream.bytes; ending = none }
unfolding take_stream
take_stream-all stream = rw (leb_same (length stream.bytes), take-all stream.bytes) refl

check_copied-all :
    (stream : Stream)
    → stream.ending ≡ none
    → check_copied (length stream.bytes) stream (length stream.bytes) ≡ ok (length stream.bytes)
check_copied-all stream h = rw (eq_same (length stream.bytes), drop-all stream.bytes, h) refl

copy_image_fully :
    (a : Answers)
    → a.stream.ending ≡ none
    → a.write_failure ≡ none
    → (copy_image a (some (length a.stream.bytes))).result ≡ ok (length a.stream.bytes)
unfolding copy_image copy
copy_image_fully a h1 h2 = rw (take_stream-all a.stream, h2) (check_copied-all a.stream h1)

size_for_device_succeeds :
    (a : Answers) (compressed : Bool) (c n : ℕ)
    → a.capacity ≡ ok c
    → a.rewind_output ≡ ok tt
    → (if compressed then a.decoded_size else a.input_size) ≡ ok n
    → a.rewind_input ≡ ok tt
    → n ≤ c
    → (size_for_device a compressed).result ≡ ok n
unfolding size_for_device fitting_size
size_for_device_succeeds a compressed c n h1 h2 h3 h4 fits =
    let room : ltb c n ≡ false = ground arith in rw (h1, h2, h3, h4, room) refl

decoder_succeeds :
    (a : Answers) (compressed : Bool)
    → a.decoder ≡ ok tt
    → (if compressed then a.decoder else ok tt) ≡ ok tt
decoder_succeeds a true h = h
decoder_succeeds a false h = refl

module _ (a : Answers) (target : Text) (allow_regular_file compressed : Bool)
    (expected : Option DiskIdentity) (before : Inspected) (m : Metadata) where
  open_output_succeeds :
      IsWilling a target allow_regular_file compressed expected before m
      → (open_output a target allow_regular_file expected before).result ≡ ok tt
  unfolding open_output check_output
  open_output_succeeds w =
      rw (w.output, w.output_metadata, w.identified, w.kind, w.same, w.apart) refl

  written_succeeds :
      (size : Option ℕ) (n : ℕ)
      → IsWilling a target allow_regular_file compressed expected before m
      → (copy_image a size).result ≡ ok n
      → (then_also (decode_and_copy a compressed size) (flush_and_sync a)).result ≡ ok n
  unfolding decode_and_copy flush_and_sync
  written_succeeds size n w h =
      let decoding = decoder_succeeds a compressed w.decoder in
      then_run_passes (decode_and_copy a compressed size).result (flush_and_sync a) (
        then_run_passes (if compressed then a.decoder else ok tt) (λ _. copy_image a size) decoding
        ∙ h)
      ∙ rw (w.flush, w.sync_all) refl

  prepared_succeeds :
      (size : Option ℕ) (is_block : Bool)
      → IsWilling a target allow_regular_file compressed expected before m
      → (prepare a compressed is_block).result ≡ ok size
      → (copy_image a size).result ≡ ok (length a.stream.bytes)
      → (then_also
          (prepare a compressed is_block)
          (λ size. then_also (decode_and_copy a compressed size) (flush_and_sync a))).result
        ≡ ok (length a.stream.bytes)
  prepared_succeeds size is_block w h copied =
      then_run_passes (prepare a compressed is_block).result _ h ∙ written_succeeds size _ w copied

  fitted_succeeds :
      (is_block : Bool)
      → IsWilling a target allow_regular_file compressed expected before m
      → (is_block ≡ false) ⊎ HasRoom a compressed
      → (then_also
          (prepare a compressed is_block)
          (λ size. then_also (decode_and_copy a compressed size) (flush_and_sync a))).result
        ≡ ok (length a.stream.bytes)
  unfolding prepare
  fitted_succeeds false w room =
      prepared_succeeds none false w (rw w.set_len refl)
        (copy_image_succeeds a w.ending w.write_failure)
  fitted_succeeds true w (inl h) = cc
  fitted_succeeds true w (inr (measured, c, capacity, fits)) =
      let size =
        size_for_device_succeeds a compressed c _ capacity w.rewind_output measured w.rewind_input
          fits in
      prepared_succeeds (some (length a.stream.bytes)) true w
        (then_run_passes (size_for_device a compressed).result _ size)
        (copy_image_fully a w.ending w.write_failure)

  -- If no call fails and the checks pass, and a block device has room for the image, whose size is
  -- what was measured, then the installation succeeds and returns the length of the image.
  pub install_image_inner_succeeds :
      IsWilling a target allow_regular_file compressed expected before m
      → (is_block_device m ≡ false) ⊎ HasRoom a compressed
      → (install_image_inner a target allow_regular_file compressed expected).result
        ≡ ok (length a.stream.bytes)
  unfolding install_image_inner
  install_image_inner_succeeds w room =
      then_run_passes (inspect a target allow_regular_file) _ (
        inspect_succeeds a target allow_regular_file before w.validated w.source w.source_metadata
          w.source_regular)
      ∙ then_run_passes (open_output a target allow_regular_file expected before).result _
          (open_output_succeeds w)
      ∙ fitted_succeeds (is_block_target before.target) w (
          subst (λ b. (b ≡ false) ⊎ HasRoom a compressed)
            (sym (kind_lem _ allow_regular_file m w.kind)) room)
