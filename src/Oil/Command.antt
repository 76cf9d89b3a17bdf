-- ===== src/Oil/Command.antt =====
-- system/oil/src/main.rs, lines 280-322, 445-488, 517-529 and 555-638: the commands that install, upgrade and remove
-- packages. The load of the registry, the installation of a package, the time of day and whether the
-- state can be saved are parameters. What is printed is left out, but for what a dry run would do.
pub mod Operations
pub mod Recorded
pub mod Versions
pub mod Dry
pub mod Plan
pub mod Prefix
mod Tests
use alpenglow.Prelude.{
  ℕ, Text, Bool, true, false, not, Option, none, some, List, [], ◌∷◌, ◌++◌, if◌then◌else◌, text_eq,
  units,
}
use alpenglow.Oil.Package.{PackageMetadata, PackageIndex, new_index, find}
use alpenglow.Oil.Resolver.{Outcome, ok, formula_not_found, circular, exhausted, resolve}
use alpenglow.Oil.Dest.{DestError, Dest, accepted, refused, resolve_install_dest}
use alpenglow.Oil.State.{InstalledPackage, InstallState, get, mark_installed, remove, clear}

pub data Failure : Type 0 where
  nothing_requested registry_not_loaded state_not_saved search_not_done : Failure
  not_found circle not_installed : Text → Failure
  dest_refused : DestError → Failure

-- What is done outside of the program, and what a dry run says.
pub data Action : Type 0 where
  would_install : Text → Text → Action
  snapshot : Text → Action
  installed : PackageMetadata → Text → Action
  saved : InstallState → Action
  -- The file of the state may have been emptied or written in part.
  save_failed : InstallState → Action

pub record Ran : Type 0 where
  pub actions : List Action
  -- `Ok(())` or the error.
  pub failure : Option Failure

abbrev pub stop : Failure → Ran
stop e = record { actions = []; failure = some e }

abbrev pub finished : Ran
finished = record { actions = []; failure = none }

abbrev pub after : List Action → Ran → Ran
after actions r = record { actions = actions ++ r.actions; failure = r.failure }

pub record World : Type 0 where
  -- OIL_SYSTEM_PREFIX
  pub system_prefix : Option Text
  pub registry : Option (List PackageMetadata)
  -- Whether `install_package` succeeds.
  pub installs : PackageMetadata → Text → Bool
  pub now : PackageMetadata → ℕ
  pub saves : InstallState → Bool

abbrev pub is_installed : InstallState → Text → Bool
is_installed state name = elim (get state name) [ none ↦ false | some pkg ↦ true ]

-- Lines 449-455.
unfoldable pub pending : InstallState → List Text → List Text
pending state [] = []
pending state (name ∷ names) =
    let rest = pending state names in if is_installed state name then rest else name ∷ rest

unfoldable pub install_dest : Option Text → Option Text → Dest
install_dest system_prefix prefix = resolve_install_dest system_prefix prefix (units "/usr/local")

abbrev pub save : World → InstallState → Ran
save world state =
    if world.saves state
    then record { actions = saved state ∷ []; failure = none }
    else record { actions = save_failed state ∷ []; failure = some state_not_saved }

abbrev pub record_package : World → PackageMetadata → InstallState → InstallState
record_package world pkg state = mark_installed state pkg.name (some pkg.version) (world.now pkg)

-- The loop of lines 472-483 on the way that is no dry run, and the save after it.
unfoldable pub install_all : World → Text → List PackageMetadata → InstallState → Ran
unfolding mark_installed
install_all world dest [] state = save world state
install_all world dest (pkg ∷ pkgs) state =
    let rest = install_all world dest pkgs (record_package world pkg state) in
    if world.installs pkg dest
    then after (installed pkg dest ∷ []) rest
    else stop (not_installed pkg.name)

unfoldable pub would_all : List PackageMetadata → List Action
would_all [] = []
would_all (pkg ∷ pkgs) = would_install pkg.name pkg.version ∷ would_all pkgs

abbrev pub install_into : World → List PackageMetadata → InstallState → Dest → Ran
install_into world order state (accepted dest) = install_all world dest order state
install_into world order state (refused e) = stop (dest_refused e)

abbrev pub install_order : World → Bool → InstallState → List PackageMetadata → Ran
install_order world true state order = record { actions = would_all order; failure = none }
install_order world false state order =
    after (snapshot (units "install") ∷ [])
      (install_into world order state (install_dest world.system_prefix none))

abbrev pub install_resolved : World → Bool → InstallState → Outcome (List PackageMetadata) → Ran
install_resolved world dry_run state (ok order) = install_order world dry_run state order
install_resolved world dry_run state (formula_not_found name) = stop (not_found name)
install_resolved world dry_run state (circular name) = stop (circle name)
install_resolved world dry_run state exhausted = stop search_not_done

abbrev pub install_pending :
    World → Bool → InstallState → List Text → Option (List PackageMetadata) → Ran
install_pending world dry_run state [] registry = finished
install_pending world dry_run state (name ∷ names) none = stop registry_not_loaded
install_pending world dry_run state (name ∷ names) (some packages) =
    install_resolved world dry_run state
      (resolve (new_index packages) (is_installed state) (name ∷ names))

unfoldable pub run_install : World → InstallState → List Text → Bool → Ran
unfolding pending install_all would_all install_dest
run_install world state packages dry_run =
    install_pending world dry_run state (pending state packages) world.registry
