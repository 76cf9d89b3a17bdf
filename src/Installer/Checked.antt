-- ===== src/Installer/Checked.antt =====
-- What the checks before the first change of the target have shown.
use mathlib.Core.Path.{subst}
use alpenglow.Prelude.{Text, Bool, true, false, not, ◌≡◌, Option, arith}
use alpenglow.Installer.{ok, Metadata, is_file, is_block_device}
use alpenglow.Installer.Disk.{DiskIdentity}
use alpenglow.Installer.Target.{target_metadata}
use alpenglow.Installer.Image.{
  Answers, Inspected, inspect, is_block_target, is_other_node, is_other_kind, check_identity,
  same_file, check_output, open_output, open_options,
}
use alpenglow.Installer.Runs.{>>=-eq-ok, refuse_if-then, ok-injective}

-- The kind of the target has not changed.
pub kind_lem :
    (is_block allow_regular_file : Bool) (m : Metadata)
    → is_other_kind is_block allow_regular_file m ≡ false
    → is_block ≡ is_block_device m
kind_lem is_block allow_regular_file m h = ground arith

module _ (a : Answers) (target : Text) (allow_regular_file : Bool) where
  -- The target was validated, and the source is a regular file.
  pub record IsInspected (before : Inspected) : Type 0 where
    pub validated : target_metadata target allow_regular_file a.exists a.target ≡ ok before.target
    pub source_found : a.source_metadata ≡ ok before.source
    pub source_regular : is_file before.source ≡ true

  pub inspect-IsInspected :
      (before : Inspected) → inspect a target allow_regular_file ≡ ok before → IsInspected before
  unfolding inspect
  inspect-IsInspected before h =
      let (t, validated, h1) =
        >>=-eq-ok (target_metadata target allow_regular_file a.exists a.target) _ h in
      let (u, opened, h2) = >>=-eq-ok a.source _ h1 in
      let (s, found, h3) = >>=-eq-ok a.source_metadata _ h2 in
      let (regular, h4) = refuse_if-then (not (is_file s)) _ _ h3 in
      subst IsInspected (ok-injective h4)
        (record { validated = validated; source_found = found; source_regular = ground arith })

  -- The open target is of the kind that was validated, and the same object, and not the source; if
  -- a disk was selected it is that disk.
  pub record IsChecked (expected : Option DiskIdentity) (before : Inspected) (m : Metadata)
      : Type 0 where
    pub found : a.output_metadata ≡ ok m
    pub kind : is_other_kind (is_block_target before.target) allow_regular_file m ≡ false
    pub same : is_other_node before.target m ≡ false
    pub apart : same_file before.source m ≡ false
    pub identified : check_identity a.system target m expected ≡ ok tt

  pub open_output-IsChecked :
      (expected : Option DiskIdentity) (before : Inspected) (u : Unit {0})
      → (open_output a target allow_regular_file expected before).result ≡ ok u
      → (m : Metadata) × IsChecked expected before m
  unfolding open_output check_output
  open_output-IsChecked expected before u h =
      let (v, opened, h1) =
        >>=-eq-ok (a.output (open_options before.target allow_regular_file)) _ h in
      let (m, found, h2) = >>=-eq-ok a.output_metadata _ h1 in
      let (w, identified, h3) = >>=-eq-ok (check_identity a.system target m expected) _ h2 in
      let (kind, h4) = refuse_if-then _ _ _ h3 in
      let (same, h5) = refuse_if-then _ _ _ h4 in
      let (apart, h6) = refuse_if-then _ _ _ h5 in
      (
        m,
        record { found = found; kind = kind; same = same; apart = apart; identified = identified },
      )
