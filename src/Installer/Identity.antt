-- ===== src/Installer/Identity.antt =====
-- What the identity of a disk says of it.
use mathlib.Core.Path.{subst}
use alpenglow.Prelude.{
  ℕ, ◌*◌, ◌^◌, ◌<◌, Text, true, false, not, ◌≡◌, ◌≢◌, refl, [], ◌∷◌, arith, units,
}
use alpenglow.Oil.FilePath.{join}
use alpenglow.Oil.Str.{str_trim}
use alpenglow.Installer.{Result, ok, err, ◌>>=◌, Metadata, is_block_device}
use alpenglow.Installer.Disk.{
  DiskIdentity, System, sysfs_of, number, filled_or, model_or_unknown, bytes_of_sectors, flag_of,
  disk_identity,
}
use alpenglow.Installer.Runs.{>>=-eq-ok, refuse_if-then, ok-injective}

-- A whole block device, named by the numbers of its node, of a size in whole sectors that fits 64
-- bits, with a model that is not empty.
pub record IsWholeDisk (system : System) (path : Text) (m : Metadata) (d : DiskIdentity)
    : Type 0 where
  pub block : is_block_device m ≡ true
  pub whole : system.exists (join (sysfs_of system m) (units "partition")) ≡ false
  pub at_path : d.path ≡ path
  pub same_device : d.device ≡ m.dev
  pub same_inode : d.inode ≡ m.ino
  pub same_rdev : d.rdev ≡ m.rdev
  pub has_model : d.model ≢ []
  pub size :
      (n : ℕ) × (number system path (sysfs_of system m) (units "size") ≡ ok n)
      × (d.size_bytes ≡ n * 512)
  pub fits : d.size_bytes < 2 ^ 64

filled_or-filled : (t : Text) → filled_or t (units "Unknown model") ≢ []
filled_or-filled [] h = cc
filled_or-filled (c ∷ t) h = cc

model_or_unknown-filled : (r : Result Text) → model_or_unknown r ≢ []
model_or_unknown-filled (ok value) = filled_or-filled (str_trim value)
model_or_unknown-filled (err e) = filled_or-filled []

bytes_of_sectors_lem :
    (n size : ℕ) → bytes_of_sectors n ≡ ok size → (size ≡ n * 512) × (size < 2 ^ 64)
bytes_of_sectors_lem n size h = ground arith

-- A disk that has an identity is a whole block device, named by the numbers of its node; its size in
-- bytes is 512 times what the system reads as its size, without overflow; and its model is not empty.
pub disk_identity-IsWholeDisk :
    (system : System) (path : Text) (m : Metadata) (d : DiskIdentity)
    → disk_identity system path m ≡ ok d
    → IsWholeDisk system path m d
unfolding disk_identity
disk_identity-IsWholeDisk system path m d h =
    let sysfs = sysfs_of system m in
    let size = number system path sysfs (units "size") in
    let (block, h1) = refuse_if-then (not (is_block_device m)) _ _ h in
    let (whole, h2) = refuse_if-then (system.exists (join sysfs (units "partition"))) _ _ h1 in
    let (size_bytes, es, h3) = >>=-eq-ok (size >>= bytes_of_sectors) _ h2 in
    let (n, en, hn) = >>=-eq-ok size bytes_of_sectors es in
    let (removable, er, h4) =
      >>=-eq-ok (number system path sysfs (units "removable") >>= flag_of) _ h3 in
    let (diskseq, ed, h5) = >>=-eq-ok (number system path sysfs (units "diskseq")) _ h4 in
    let (in_bytes, fits) = bytes_of_sectors_lem n size_bytes hn in
    subst (IsWholeDisk system path m) (ok-injective h5) (record {
      block = ground arith;
      whole = whole;
      at_path = refl;
      same_device = refl;
      same_inode = refl;
      same_rdev = refl;
      has_model =
          model_or_unknown-filled (system.read_to_string (join sysfs (units "device/model")));
      size = (n, en, in_bytes);
      fits = fits;
    })
