-- ===== src/Installer/Disk.antt =====
-- system/installer/src/lib.rs, lines 39-107: the identity of a disk. What sysfs answers, and the parts
-- of a device number (`libc::major` and `libc::minor`), are parameters.
use alpenglow.Prelude.{
  ℕ, ◌*◌, ◌^◌, ◌==◌, ltb, Text, Bool, true, false, not, ◌&&◌, Option, none, some, [], ◌∷◌, ◌++◌,
  if◌then◌else◌, text_eq, units, decimal,
}
use alpenglow.Oil.Str.{str_trim}
use alpenglow.Oil.FilePath.{
  Components, same_component, components, components_of, segments, component_of, join,
}
use alpenglow.Oil.Parse.{decimal_from, parse_u64}
use alpenglow.Installer.{
  invalid_target, Result, ok, err, ◌>>=◌, ◌>>◌, refuse_if, Metadata, is_block_device,
}

pub record DiskIdentity : Type 0 where
  pub path : Text
  pub model : Text
  pub size_bytes : ℕ
  pub removable : Bool
  pub device : ℕ
  pub inode : ℕ
  pub rdev : ℕ
  pub diskseq : ℕ

pub record System : Type 0 where
  pub major : ℕ → ℕ
  pub minor : ℕ → ℕ
  -- `Path::exists` and `fs::read_to_string`
  pub exists : Text → Bool
  pub read_to_string : Text → Result Text

unfoldable pub sysfs_of : System → Metadata → Text
unfolding decimal
sysfs_of system m =
    units "/sys/dev/block/"
    ++ (decimal (system.major m.rdev) ++ (b':' ∷ decimal (system.minor m.rdev)))

abbrev pub parsed : Text → Text → Option ℕ → Result ℕ
parsed name path (some n) = ok n
parsed name path none = err (invalid_target (units "invalid " ++ (name ++ (units " for " ++ path))))

-- `number`
unfoldable pub number : System → Text → Text → Text → Result ℕ
unfolding join str_trim decimal_from
number system path sysfs name = system.read_to_string (join sysfs name) >>= λ value.
    parsed name path (parse_u64 (str_trim value))

abbrev pub filled_or : Text → Text → Text
filled_or [] other = other
filled_or (c ∷ t) other = c ∷ t

abbrev pub model_or_unknown : Result Text → Text
model_or_unknown (ok value) = filled_or (str_trim value) (units "Unknown model")
model_or_unknown (err e) = units "Unknown model"

-- `checked_mul(512)`
abbrev pub bytes_of_sectors : ℕ → Result ℕ
bytes_of_sectors n =
    if ltb (n * 512) (2 ^ 64)
    then ok (n * 512)
    else err (invalid_target (units "disk size overflow"))

abbrev pub flag_of : ℕ → Result Bool
flag_of n =
    if n == 0
    then ok false
    else if n == 1
    then ok true
    else err (invalid_target (units "invalid removable flag"))

unfoldable pub disk_identity : System → Text → Metadata → Result DiskIdentity
unfolding sysfs_of number join str_trim
disk_identity system path m = do
  let sysfs = sysfs_of system m
  refuse_if (not (is_block_device m)) (invalid_target (units "not a block device"))
  refuse_if (system.exists (join sysfs (units "partition")))
      (invalid_target (units "select a whole disk, not a partition"))
  let model = model_or_unknown (system.read_to_string (join sysfs (units "device/model")))
  size_bytes ← number system path sysfs (units "size") >>= bytes_of_sectors
  removable ← number system path sysfs (units "removable") >>= flag_of
  diskseq ← number system path sysfs (units "diskseq")
  ok (record {
    path = path;
    model = model;
    size_bytes = size_bytes;
    removable = removable;
    device = m.dev;
    inode = m.ino;
    rdev = m.rdev;
    diskseq = diskseq;
  })

abbrev pub same_flag : Bool → Bool → Bool
same_flag true b = b
same_flag false b = not b

abbrev pub same_components : Components → Components → Bool
same_components [] [] = true
same_components [] (_ ∷ _) = false
same_components (_ ∷ _) [] = false
same_components (c ∷ path) (d ∷ other) = same_component c d && same_components path other

-- The derived `==`; paths are compared by their components.
unfoldable pub same_identity : DiskIdentity → DiskIdentity → Bool
unfolding components components_of segments component_of
same_identity a b =
    same_components (components a.path) (components b.path)
    && text_eq a.model b.model
    && a.size_bytes == b.size_bytes
    && same_flag a.removable b.removable
    && a.device == b.device
    && a.inode == b.inode
    && a.rdev == b.rdev
    && a.diskseq == b.diskseq

-- `inspect_install_disk`, by what `fs::metadata` answers.
unfoldable pub inspect_install_disk : System → Text → Result Metadata → Result DiskIdentity
unfolding disk_identity
inspect_install_disk system path metadata = metadata >>= disk_identity system path
