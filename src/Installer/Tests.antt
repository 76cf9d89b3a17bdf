-- ===== src/Installer/Tests.antt =====
-- The installer on a disk of eight sectors and on an image of three bytes.
use alpenglow.Prelude.{
  ℕ, ◌/◌, ◌%◌, ◌≤◌, Text, true, false, ◌≡◌, refl, ap, Option, none, some, List, [], ◌∷◌, All,
  if◌then◌else◌, text_eq, units, inr, arith,
}
use alpenglow.Installer.{
  Result, ok, err, io, invalid_target, Metadata, regular, block_device, opened, sought_end, rewound,
  wrote, flushed, synced, Run,
}
use alpenglow.Oil.FilePath.{components}
use alpenglow.Oil.Index.{file_name}
use alpenglow.Installer.Disk.{DiskIdentity, System, disk_identity}
use alpenglow.Installer.Target.{target_metadata}
use alpenglow.Installer.Image.{Answers, Inspected, install_image_inner}
use alpenglow.Installer.Command.{
  install_image_to_disk, parse_installer_args, run_installer, extension,
}
use alpenglow.Installer.Safety.{Permitted, install_image_inner-Permitted}
use alpenglow.Installer.Bounds.{written, install_image_inner-AtMost}
use alpenglow.Installer.Written.{IsInstalled, install_image_inner-IsInstalled}
use alpenglow.Installer.Done.{IsWilling, install_image_inner_succeeds}
use alpenglow.Installer.Confirmed.{install_image_to_disk-Permitted}
use alpenglow.Installer.Exit.{
  is_device_call, run_installer-is_device_call, run_installer-IsInstalled,
}

abbrev read_sysfs : Text → Result Text
read_sysfs path =
    if text_eq path (units "/sys/dev/block/8:16/size")
    then ok (units "8\n")
    else if text_eq path (units "/sys/dev/block/8:16/removable")
    then ok (units "1\n")
    else if text_eq path (units "/sys/dev/block/8:16/diskseq")
    then ok (units "7\n")
    else err (io (units "No such file or directory (os error 2)"))

abbrev linux : System
linux = record {
  major = λ rdev. rdev / 256;
  minor = λ rdev. rdev % 256;
  exists = λ path. false;
  read_to_string = read_sysfs;
}

abbrev disk_node : Metadata
disk_node = record { kind = block_device; dev = 5; ino = 300; rdev = 2064 }

abbrev image_file : Metadata
image_file = record { kind = regular; dev = 9; ino = 12; rdev = 0 }

abbrev disk_path : Text
disk_path = units "/dev/sdb"

abbrev image_path : Text
image_path = units "alpenglow.img"

abbrev stick : DiskIdentity
stick = record {
  path = disk_path;
  model = units "Unknown model";
  size_bytes = 4096;
  removable = true;
  device = 5;
  inode = 300;
  rdev = 2064;
  diskseq = 7;
}

stick_is_found : disk_identity linux disk_path disk_node ≡ ok stick
unfolding disk_identity
stick_is_found = refl

abbrev all_well : Answers
all_well = record {
  exists = true;
  target = ok disk_node;
  source = ok tt;
  source_metadata = ok image_file;
  output = λ options. ok tt;
  output_metadata = ok disk_node;
  system = linux;
  capacity = ok 4096;
  rewind_output = ok tt;
  decoded_size = ok 3;
  input_size = ok 3;
  rewind_input = ok tt;
  set_len = ok tt;
  decoder = ok tt;
  stream = record { bytes = 10 ∷ 20 ∷ 30 ∷ []; ending = none };
  write_failure = none;
  flush = ok tt;
  sync_all = ok tt;
}

abbrev installed_run : Run ℕ
installed_run = record {
  calls =
      opened (record { write = true; create_new = false; exclusive = true })
      ∷ sought_end
      ∷ rewound
      ∷ wrote (10 ∷ 20 ∷ 30 ∷ [])
      ∷ flushed
      ∷ synced
      ∷ [];
  result = ok 3;
}

installs : install_image_inner all_well disk_path false false none ≡ installed_run
unfolding install_image_inner
installs = refl

installs_on_stick : install_image_to_disk all_well image_path stick (units "sdb") ≡ installed_run
unfolding install_image_to_disk
installs_on_stick = refl

refuses_wrong_name :
    install_image_to_disk all_well image_path stick (units "sda")
    ≡ record { calls = []; result = err (invalid_target (units "device name does not match")) }
unfolding install_image_to_disk
refuses_wrong_name = refl

-- Another disk has taken the place of the one that was selected.
refuses_other_disk :
    (install_image_to_disk all_well image_path (record stick { diskseq = 6 }) (units "sdb")).result
    ≡ err (invalid_target (units "disk identity changed; select it again"))
unfolding install_image_to_disk
refuses_other_disk = refl

refuses_large_image :
    (install_image_inner (record all_well { capacity = ok 2 }) disk_path false false none).result
    ≡ err (invalid_target (units "image requires 3 bytes but target has 2 bytes"))
unfolding install_image_inner
refuses_large_image = refl

notices_changed_source :
    (install_image_inner (record all_well { input_size = ok 2 }) disk_path false false none).result
    ≡ err (io (units "source image changed during installation"))
unfolding install_image_inner
notices_changed_source = refl

knows_extension : extension (units "/run/alpenglow/alpenglow.img.zst") ≡ some (units "zst")
unfolding extension
knows_extension = refl

abbrev arguments : List Text
arguments = image_path ∷ units "--tui" ∷ disk_path ∷ []

abbrev drawn : Text → Option Text → Option Text
drawn source target = none

abbrev always : Answers → Text → Text → Answers
always a source target = a

given : (parse_installer_args arguments).1.1 ≡ some disk_path
unfolding parse_installer_args
given = refl

reports_success : (run_installer (always all_well) drawn arguments).code ≡ 0
unfolding run_installer
reports_success = refl

reports_usage : (run_installer (always all_well) drawn (image_path ∷ [])).code ≡ 2
unfolding run_installer
reports_usage = refl

install_image_inner-Permitted_example :
    All
      (Permitted all_well disk_path false none)
      (install_image_inner all_well disk_path false false none).calls
install_image_inner-Permitted_example =
    install_image_inner-Permitted all_well disk_path false false none

install_image_inner-AtMost_example :
    written (install_image_inner all_well disk_path false false none).calls ≤ 4096
install_image_inner-AtMost_example =
    install_image_inner-AtMost all_well disk_path false false none disk_node 4096 refl refl refl

install_image_inner-IsInstalled_example :
    IsInstalled all_well
      (1 ∷ 2 ∷ 3 ∷ 4 ∷ [])
      3
      (install_image_inner all_well disk_path false false none).calls
install_image_inner-IsInstalled_example =
    install_image_inner-IsInstalled all_well disk_path false false none (1 ∷ 2 ∷ 3 ∷ 4 ∷ []) 3
      (ap (λ r. r.result) installs)

abbrev inspected : Inspected
inspected = record { target = some disk_node; source = image_file }

all_well-IsWilling : IsWilling all_well disk_path false false none inspected disk_node
unfolding target_metadata
all_well-IsWilling = record {
  validated = refl;
  source = refl;
  source_metadata = refl;
  source_regular = refl;
  output = refl;
  output_metadata = refl;
  identified = refl;
  kind = refl;
  same = refl;
  apart = refl;
  rewind_output = refl;
  rewind_input = refl;
  set_len = refl;
  decoder = refl;
  ending = refl;
  write_failure = refl;
  flush = refl;
  sync_all = refl;
}

install_image_inner_succeeds_example :
    (install_image_inner all_well disk_path false false none).result ≡ ok 3
install_image_inner_succeeds_example =
    install_image_inner_succeeds all_well disk_path false false none inspected disk_node
      all_well-IsWilling (inr (refl, 4096, refl, omega arith))

install_image_to_disk-Permitted_example :
    All
      (λ call.
        (file_name (components disk_path) ≡ some (units "sdb"))
        × Permitted all_well disk_path false (some stick) call)
      (install_image_to_disk all_well image_path stick (units "sdb")).calls
install_image_to_disk-Permitted_example =
    install_image_to_disk-Permitted all_well image_path stick (units "sdb")

run_installer-is_device_call_example :
    All
      (λ call. is_device_call all_well call ≡ true)
      (run_installer (always all_well) drawn arguments).calls
run_installer-is_device_call_example =
    run_installer-is_device_call (always all_well) drawn arguments disk_path given

run_installer-IsInstalled_example :
    (target : Text) × ((parse_installer_args arguments).1.1 ≡ some target)
    × (n : ℕ) × IsInstalled all_well [] n (run_installer (always all_well) drawn arguments).calls
run_installer-IsInstalled_example =
    run_installer-IsInstalled (always all_well) drawn arguments [] reports_success
