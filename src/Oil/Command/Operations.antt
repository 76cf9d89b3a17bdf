-- ===== src/Oil/Command/Operations.antt =====
-- system/oil/src/main.rs, lines 284-322, 517-529 and 555-638: `system add`, `uninstall` and `upgrade`.
use alpenglow.Prelude.{
  Text, Bool, true, false, Option, none, some, List, [], ◌∷◌, ◌++◌, if◌then◌else◌, text_eq, units,
  map,
}
use alpenglow.Oil.Package.{PackageMetadata, PackageIndex, new_index, find}
use alpenglow.Oil.Dest.{Dest, accepted, refused}
use alpenglow.Oil.State.{InstalledPackage, InstallState, get, mark_installed, remove, clear}
use alpenglow.Oil.Command.{
  Action, would_install, snapshot, installed, Ran, stop, finished, after, World, nothing_requested,
  registry_not_loaded, not_found, not_installed, dest_refused, install_dest, save,
}

-- `system_prefix`
abbrev pub prefix_or : Option Text → Option Text → Option Text
prefix_or (some prefix) other = some prefix
prefix_or none other = other

-- Lines 301-319, for a package that was looked for.
abbrev pub add_found : World → Text → Bool → Text → Option PackageMetadata → Ran → Ran
add_found world dest dry_run name none rest = stop (not_found name)
add_found world dest true name (some pkg) rest =
    after (would_install pkg.name pkg.version ∷ []) rest
add_found world dest false name (some pkg) rest =
    if world.installs pkg dest
    then after (installed pkg dest ∷ []) rest
    else stop (not_installed pkg.name)

unfoldable pub add_all : World → PackageIndex → Text → Bool → List Text → Ran
add_all world index dest dry_run [] = finished
add_all world index dest dry_run (name ∷ names) =
    add_found world dest dry_run name (find index name) (add_all world index dest dry_run names)

abbrev pub snapshot_unless : Bool → Text → Ran → Ran
snapshot_unless true label rest = rest
snapshot_unless false label rest = after (snapshot label ∷ []) rest

abbrev pub add_from : World → List Text → Bool → Dest → Option (List PackageMetadata) → Ran
add_from world packages dry_run (refused e) registry = stop (dest_refused e)
add_from world packages dry_run (accepted dest) none = stop registry_not_loaded
add_from world packages dry_run (accepted dest) (some registry) =
    snapshot_unless dry_run (units "system-add")
      (add_all world (new_index registry) dest dry_run packages)

unfoldable pub run_system_add : World → List Text → Option Text → Bool → Ran
unfolding add_all install_dest
run_system_add world [] prefix dry_run = stop nothing_requested
run_system_add world (name ∷ names) prefix dry_run =
    add_from world (name ∷ names) dry_run
      (install_dest world.system_prefix (prefix_or prefix world.system_prefix)) world.registry

unfoldable pub remove_all : List Text → InstallState → InstallState
unfolding remove
remove_all [] state = state
remove_all (name ∷ names) state = remove_all names (remove state name)

unfoldable pub run_uninstall : World → InstallState → List Text → Bool → Ran
unfolding remove_all
run_uninstall world state formulae everything =
    after (snapshot (units "uninstall") ∷ [])
      (save world (if everything then clear state else remove_all formulae state))

pub record Upgrade : Type 0 where
  pub name : Text
  pub current : InstalledPackage
  pub latest : PackageMetadata

-- Lines 569-576 and 581-588, for a package that is installed.
abbrev pub upgrade_found : Text → InstalledPackage → Option PackageMetadata → List Upgrade
upgrade_found name current none = []
upgrade_found name current (some latest) =
    if text_eq latest.version current.version
    then []
    else record { name = name; current = current; latest = latest } ∷ []

abbrev pub upgrade_of : PackageIndex → Text → Option InstalledPackage → List Upgrade
upgrade_of index name none = []
upgrade_of index name (some current) =
    if current.pinned then [] else upgrade_found name current (find index name)

unfoldable pub plan_named : List Text → InstallState → PackageIndex → List Upgrade
plan_named [] state index = []
plan_named (name ∷ names) state index =
    upgrade_of index name (get state name) ++ plan_named names state index

unfoldable pub plan_everything : InstallState → PackageIndex → List Upgrade
plan_everything [] index = []
plan_everything ((name, current) ∷ state) index =
    upgrade_of index name (some current) ++ plan_everything state index

unfoldable pub plan_upgrades : Option (List Text) → InstallState → PackageIndex → List Upgrade
unfolding plan_named plan_everything
plan_upgrades (some targets) state index = plan_named targets state index
plan_upgrades none state index = plan_everything state index

-- Lines 618-636 on the way that is no dry run, and the save after it.
unfoldable pub upgrade_all : World → Text → List Upgrade → InstallState → Ran
unfolding mark_installed
upgrade_all world dest [] state = save world state
upgrade_all world dest (u ∷ upgrades) state =
    let marked = mark_installed state u.name (some u.latest.version) (world.now u.latest) in
    let rest = upgrade_all world dest upgrades marked in
    if world.installs u.latest dest
    then after (installed u.latest dest ∷ []) rest
    else stop (not_installed u.latest.name)

abbrev pub would_upgrade : Upgrade → Action
would_upgrade u = would_install u.name u.latest.version

abbrev pub upgrade_into : World → List Upgrade → InstallState → Dest → Ran
upgrade_into world upgrades state (refused e) = stop (dest_refused e)
upgrade_into world upgrades state (accepted dest) = upgrade_all world dest upgrades state

-- A dry run saves the state too.
abbrev pub upgrade_planned : World → Bool → InstallState → List Upgrade → Ran
upgrade_planned world dry_run state [] = save world state
upgrade_planned world true state (u ∷ upgrades) =
    after (map would_upgrade (u ∷ upgrades)) (save world state)
upgrade_planned world false state (u ∷ upgrades) =
    after (snapshot (units "upgrade") ∷ [])
      (upgrade_into world (u ∷ upgrades) state (install_dest world.system_prefix none))

abbrev pub targets_of : List Text → Option (List Text)
targets_of [] = none
targets_of (name ∷ names) = some (name ∷ names)

abbrev pub upgrade_from :
    World → InstallState → List Text → Bool → Option (List PackageMetadata) → Ran
upgrade_from world state packages dry_run none = stop registry_not_loaded
upgrade_from world state packages dry_run (some registry) =
    upgrade_planned world dry_run state
      (plan_upgrades (targets_of packages) state (new_index registry))

unfoldable pub run_upgrade : World → InstallState → List Text → Bool → Ran
unfolding plan_upgrades upgrade_all install_dest
run_upgrade world [] packages dry_run = finished
run_upgrade world (entry ∷ state) packages dry_run =
    upgrade_from world (entry ∷ state) packages dry_run world.registry
