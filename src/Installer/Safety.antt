-- ===== src/Installer/Safety.antt =====
-- When the installer changes a target.
use alpenglow.Prelude.{
  ℕ, Text, Bool, true, false, not, ◌≡◌, refl, sym, ◌∙◌, ◌⊎◌, inl, inr, Option, none, some, All,
  arith, ltb, length, take, Bool-cases, List, if◌then◌else◌,
}
use alpenglow.Installer.{
  Result, ok, err, Metadata, is_file, is_block_device, Call, opened, truncated, flushed, synced,
  sought_end, rewound, wrote,
}
use alpenglow.Installer.Disk.{DiskIdentity, disk_identity, same_identity}
use alpenglow.Installer.Target.{target_metadata}
use alpenglow.Installer.Image.{
  Answers, Stream, copy_within, copy, is_other_kind, take_stream, copy_image, Inspected, inspect,
  is_block_target, check_identity, same_node, same_file, open_output, open_options, size_for_device,
  prepare, decode_and_copy, flush_and_sync, install_image_inner, is_other_node,
}
use alpenglow.Installer.Runs.{then_run-All, then_also-All, >>=-eq-ok, refuse_if-eq-ok}
use alpenglow.Installer.Checked.{
  kind_lem, IsInspected, inspect-IsInspected, IsChecked, open_output-IsChecked,
}

-- No disk was selected, or the disk that is found is the one.
abbrev pub is_selected : Option DiskIdentity → Result DiskIdentity → Bool
is_selected none found = true
is_selected (some expected) (ok found) = same_identity found expected
is_selected (some expected) (err e) = false

check_identity-selected :
    (expected : Option DiskIdentity) (a : Answers) (target : Text) (m : Metadata)
    → check_identity a.system target m expected ≡ ok tt
    → is_selected expected (disk_identity a.system target m) ≡ true
check_identity-selected none a target m h = refl
check_identity-selected (some expected) a target m h =
    let (found, e, h1) = >>=-eq-ok (disk_identity a.system target m) _ h in
    let passed = refuse_if-eq-ok (not (same_identity found expected)) _ h1 in rw e (ground arith)

module _ (P : Call → Type 0) where
  prepare-All :
      (a : Answers) (compressed is_block : Bool)
      → P sought_end
      → P rewound
      → (is_block ≡ false → P truncated)
      → All P (prepare a compressed is_block).calls
  unfolding prepare size_for_device
  prepare-All a compressed true he hr h =
      then_also-All P (size_for_device a compressed) _
        (he, then_run-All P a.capacity _ λ c _. (hr, then_run-All P a.rewind_output _ λ u _. tt))
        λ n _. tt
  prepare-All a compressed false he hr h = (h refl, tt)

  copy_within-All :
      ((bytes : List ℕ) → P (wrote bytes))
      → (stream : Stream) (failure : Option (ℕ × Text)) → All P (copy_within stream failure).calls
  copy_within-All h stream none = (h stream.bytes, tt)
  copy_within-All h stream (some (room, e)) = elim (Bool-cases (ltb room (length stream.bytes))) [
    | inl full ↦ rw full (h (take room stream.bytes), tt)
    | inr fits ↦ rw fits (h stream.bytes, tt)
  ]

  copy-All :
      ((bytes : List ℕ) → P (wrote bytes))
      → (a : Answers) (stream : Stream) → All P (copy a stream).calls
  unfolding copy
  copy-All h a stream = copy_within-All h stream a.write_failure

  copy_image-All :
      ((bytes : List ℕ) → P (wrote bytes))
      → (a : Answers) (size : Option ℕ) → All P (copy_image a size).calls
  unfolding copy_image
  copy_image-All h a none = copy-All h a a.stream
  copy_image-All h a (some n) = copy-All h a (take_stream n a.stream)

  decode_and_copy-All :
      ((bytes : List ℕ) → P (wrote bytes))
      → (a : Answers) (compressed : Bool) (size : Option ℕ)
      → All P (decode_and_copy a compressed size).calls
  unfolding decode_and_copy
  decode_and_copy-All h a compressed size =
      then_run-All P (if compressed then a.decoder else ok tt) _ λ u _. copy_image-All h a size

  flush_and_sync-All :
      P flushed → P synced → (a : Answers) (n : ℕ) → All P (flush_and_sync a n).calls
  unfolding flush_and_sync
  flush_and_sync-All hf hs a n = (hf, then_run-All P a.flush _ λ u _. (hs, tt))

writable_lem :
    (is_block allow_regular_file : Bool) (m : Metadata)
    → is_other_kind is_block allow_regular_file m ≡ false
    → (is_block_device m ≡ true) ⊎ ((allow_regular_file ≡ true) × (is_file m ≡ true))
writable_lem is_block allow_regular_file m h = ground arith

module _ (a : Answers) (target : Text) (allow_regular_file : Bool) where
  -- The open target may be changed: it is a block device, or a regular file where those are
  -- allowed, it is what was validated or was not there then, it is not the source, which is a
  -- regular file, and it is the disk that was selected.
  pub record MayChange (expected : Option DiskIdentity) (m : Metadata) : Type 0 where
    pub open_now : a.output_metadata ≡ ok m
    pub writable : (is_block_device m ≡ true) ⊎ ((allow_regular_file ≡ true) × (is_file m ≡ true))
    pub validated :
        ((allow_regular_file ≡ true) × (a.exists ≡ false))
        ⊎ ((t : Metadata) × (a.target ≡ ok t) × (same_node t m ≡ true))
    pub image :
        (s : Metadata) × (a.source_metadata ≡ ok s) × (is_file s ≡ true) × (same_file s m ≡ false)
    pub selected : is_selected expected (disk_identity a.system target m) ≡ true

  -- What is demanded of a call.
  abbrev pub Permitted : Option DiskIdentity → Call → Type 0
  Permitted expected (opened o) =
      ((o.exclusive ≡ true) ⊎ (allow_regular_file ≡ true))
      × ((o.create_new ≡ false) ⊎ ((allow_regular_file ≡ true) × (a.exists ≡ false)))
  Permitted expected truncated = (m : Metadata) × MayChange expected m × (is_block_device m ≡ false)
  Permitted expected (wrote bytes) = (m : Metadata) × MayChange expected m
  Permitted expected sought_end = (m : Metadata) × MayChange expected m
  Permitted expected rewound = (m : Metadata) × MayChange expected m
  Permitted expected flushed = (m : Metadata) × MayChange expected m
  Permitted expected synced = (m : Metadata) × MayChange expected m

  target_metadata-validated :
      (t : Option Metadata) (m : Metadata)
      → target_metadata target allow_regular_file a.exists a.target ≡ ok t
      → is_other_node t m ≡ false
      → ((allow_regular_file ≡ true) × (a.exists ≡ false))
        ⊎ ((t : Metadata) × (a.target ≡ ok t) × (same_node t m ≡ true))
  unfolding target_metadata
  target_metadata-validated t m h same = ground arith

  opened-Permitted :
      (t : Option Metadata) (expected : Option DiskIdentity)
      → target_metadata target allow_regular_file a.exists a.target ≡ ok t
      → Permitted expected (opened (open_options t allow_regular_file))
  unfolding target_metadata
  opened-Permitted t expected h = ground arith

  IsChecked-MayChange :
      (expected : Option DiskIdentity) (before : Inspected) (m : Metadata)
      → IsInspected a target allow_regular_file before
      → IsChecked a target allow_regular_file expected before m
      → MayChange expected m
  IsChecked-MayChange expected before m i c = record {
    open_now = c.found;
    writable = writable_lem (is_block_target before.target) allow_regular_file m c.kind;
    validated = target_metadata-validated before.target m i.validated c.same;
    image = (before.source, i.source_found, i.source_regular, c.apart);
    selected = check_identity-selected expected a target m c.identified;
  }

  -- Whatever the system answers, the target is opened for itself alone unless regular files are
  -- allowed, it is created only where those are allowed and it was not there, and it is changed only if the open target is a
  -- block device, or a regular file where those are allowed, is the object that was validated or
  -- was absent then, is not the source, which is a regular file, and is the disk that was selected,
  -- if one was. A block device is not truncated.
  pub install_image_inner-Permitted :
      (compressed : Bool) (expected : Option DiskIdentity)
      → All
          (Permitted expected)
          (install_image_inner a target allow_regular_file compressed expected).calls
  unfolding install_image_inner
  install_image_inner-Permitted compressed expected =
      let P = Permitted expected in
      then_run-All P (inspect a target allow_regular_file) _ λ before hb.
        then_also-All P (open_output a target allow_regular_file expected before) _
          (
            opened-Permitted before.target expected
                (inspect-IsInspected a target allow_regular_file before hb).validated,
            tt,
          )
          λ u ho.
            let i = inspect-IsInspected a target allow_regular_file before hb in
            let (m, c) = open_output-IsChecked a target allow_regular_file expected before u ho in
            let may = IsChecked-MayChange expected before m i c in
            then_also-All P (prepare a compressed (is_block_target before.target)) _
              (prepare-All P a compressed _ (m, may) (m, may)
                λ file. (m, may, sym (kind_lem _ allow_regular_file m c.kind) ∙ file))
              λ size _.
                then_also-All P (decode_and_copy a compressed size) _
                  (decode_and_copy-All P (λ bytes. (m, may)) a compressed size)
                  λ n _. flush_and_sync-All P (m, may) (m, may) a n
