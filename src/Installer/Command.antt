-- ===== src/Installer/Command.antt =====
-- system/installer/src/lib.rs, lines 15-22, 109-206 and 232-247: the commands of the installer. The
-- drawing of the screen, and what the system answers for a source and a target, are parameters.
use alpenglow.Prelude.{
  ℕ, ◌==◌, Text, Bool, true, false, not, Option, none, some, List, [], ◌∷◌, ◌++◌, if◌then◌else◌,
  text_eq, units, decimal,
}
use alpenglow.Oil.FilePath.{components, components_of, segments, component_of}
use alpenglow.Oil.Index.{file_name}
use alpenglow.Installer.{
  InstallError, io, invalid_target, Result, ok, err, Call, Run, then_run, refuse_if,
}
use alpenglow.Installer.Disk.{DiskIdentity}
use alpenglow.Installer.Image.{Answers, install_image_inner}

-- What precedes the last dot, and what follows it.
abbrev prepend : ℕ → Option (Text × Text) → Option (Text × Text)
prepend c (some (before, rest)) = some (c ∷ before, rest)
prepend c none = none

pub split_last_dot : Text → Option (Text × Text)
split_last_dot [] = none
split_last_dot (c ∷ t) = elim (split_last_dot t) [
  | some parts ↦ prepend c (some parts)
  | none ↦ if c == b'.' then some ([], t) else none
]

abbrev after_stem : Option (Text × Text) → Option Text
after_stem (some (c ∷ stem, rest)) = some rest
after_stem (some ([], rest)) = none
after_stem none = none

abbrev extension_of : Option Text → Option Text
extension_of none = none
extension_of (some name) = after_stem (split_last_dot name)

-- `Path::extension`
unfoldable pub extension : Text → Option Text
unfolding split_last_dot components components_of segments component_of
extension path = extension_of (file_name (components path))

abbrev pub equals_some : Option Text → Text → Bool
equals_some none t = false
equals_some (some s) t = text_eq s t

abbrev pub is_compressed : Text → Bool
is_compressed source = equals_some (extension source) (units "zst")

unfoldable pub install_image : Answers → Text → Text → Bool → Run ℕ
unfolding install_image_inner
install_image a source target allow_regular_file =
    install_image_inner a target allow_regular_file false none

unfoldable pub install_image_maybe_compressed : Answers → Text → Text → Bool → Run ℕ
unfolding extension install_image_inner
install_image_maybe_compressed a source target allow_regular_file =
    install_image_inner a target allow_regular_file (is_compressed source) none

unfoldable pub install_image_to_disk : Answers → Text → DiskIdentity → Text → Run ℕ
unfolding extension install_image_inner components components_of segments component_of
install_image_to_disk a source disk confirmation =
    let unconfirmed = not (equals_some (file_name (components disk.path)) confirmation) in
    then_run (refuse_if unconfirmed (invalid_target (units "device name does not match")))
      (λ _. install_image_inner a disk.path false (is_compressed source) (some disk))

abbrev pub default_live_source : Text
default_live_source = units "/run/alpenglow/alpenglow.img.zst"

abbrev pub parse_install_args : List Text → Text × Option Text
parse_install_args [] = (default_live_source, none)
parse_install_args (source ∷ []) = (source, none)
parse_install_args (source ∷ target ∷ rest) = (source, some target)

-- The loop of lines 148-154.
unfoldable pub split_flags : List Text → Bool → List Text → Bool × List Text
split_flags [] tui positionals = (tui, positionals)
split_flags (arg ∷ args) tui positionals = elim (text_eq arg (units "--tui")) [
  | true ↦ split_flags args true positionals
  | false ↦ split_flags args tui (positionals ++ arg ∷ [])
]

unfoldable pub parse_installer_args : List Text → Bool × (Text × Option Text)
unfolding split_flags
parse_installer_args args =
    let flags = split_flags args false [] in (flags.0, parse_install_args flags.1)

pub data Line : Type 0 where
  println eprintln : Text → Line

-- What a command did: its calls on the target, what it printed, and its exit code.
pub record Report : Type 0 where
  pub calls : List Call
  pub printed : Line
  pub code : ℕ

abbrev pub message : InstallError → Text
message (io e) = e
message (invalid_target e) = e

abbrev pub report_result : List Call → Text → Result ℕ → Report
report_result calls target (ok bytes) = record {
  calls = calls;
  printed = println (units "wrote " ++ (decimal bytes ++ (units " bytes to " ++ target)));
  code = 0;
}
report_result calls target (err e) = record {
  calls = calls;
  printed = eprintln (units "install failed: " ++ message e);
  code = 1;
}

abbrev pub failed_with : ℕ → Text → Report
failed_with code line = record { calls = []; printed = eprintln line; code = code }

abbrev pub install_to : (Text → Text → Bool → Run ℕ) → Text → Option Text → Report
install_to install source (some target) =
    let r = install source target false in report_result r.calls target r.result
install_to install source none =
    failed_with 2
      (units "usage: alpenglow-install [--tui] <source.img|source.img.zst> <target-disk>")

abbrev pub unless_failed : Option Text → Report → Report
unless_failed none rest = rest
unless_failed (some e) rest = failed_with 1 (units "installer ui failed: " ++ e)

unfoldable pub run_installer_with_draw_and_install :
    List Text → (Text → Option Text → Option Text) → (Text → Text → Bool → Run ℕ) → Report
unfolding parse_installer_args decimal
run_installer_with_draw_and_install args draw install =
    let (tui, paths) = parse_installer_args args in
    unless_failed (if tui then draw paths.0 paths.1 else none) (install_to install paths.0 paths.1)

unfoldable pub run_installer :
    (Text → Text → Answers) → (Text → Option Text → Option Text) → List Text → Report
unfolding run_installer_with_draw_and_install install_image_maybe_compressed
run_installer answers draw args =
    run_installer_with_draw_and_install args draw (λ source target allow_regular_file.
      install_image_maybe_compressed (answers source target) source target allow_regular_file)
