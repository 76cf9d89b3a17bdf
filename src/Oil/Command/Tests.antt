-- ===== src/Oil/Command/Tests.antt =====
-- The commands at two packages, of which one depends on the other.
use alpenglow.Prelude.{
  ℕ, Text, Bool, true, false, ◌≡◌, ◌≢◌, refl, ap, none, some, List, [], ◌∷◌, All, units, text_eq,
}
use alpenglow.Oil.FilePath.{
  root_dir, normal, components, components_of, component_of, segments, join,
}
use alpenglow.Oil.Package.{PackageMetadata, new_index, find, parse_dep_name}
use alpenglow.Oil.Resolver.{resolve, visit, visit_deps, visit_package, visit_roots}
use alpenglow.Oil.Resolver.Sets.{contains, remove}
use alpenglow.Oil.Dest.{DestError, accepted, normalize, validate_install_dest, resolve_install_dest}
use alpenglow.Oil.State.{InstalledPackage, InstallState, get}
use alpenglow.Oil.Download.{Network, TempFile, err, bad_dest, install_package}
use alpenglow.Oil.Apk.Samples.{host}
use alpenglow.Oil.Command.{
  snapshot, installed, saved, World, not_installed, pending, run_install, install_dest,
}
use alpenglow.Oil.Command.Operations.{plan_upgrades}
use alpenglow.Oil.Command.Recorded.{none_saved, run_install-none_saved}
use alpenglow.Oil.Command.Versions.{HasInstalled, run_install-HasInstalled}
use alpenglow.Oil.Command.Plan.{IsUpgrade, keys, plan_upgrades-IsUpgrade}
use alpenglow.Oil.Command.Prefix.{install_package-refuses-prefix}

abbrev entry : Text → List Text → PackageMetadata
entry name depends = record {
  name = name;
  version = units "2";
  description = [];
  download_url = [];
  sha256 = none;
  installed_size = 0;
  depends = depends;
  provides = [];
}

abbrev musl : PackageMetadata
musl = entry (units "musl") []

abbrev vim : PackageMetadata
vim = entry (units "vim") (units "musl" ∷ [])

abbrev works : PackageMetadata → Text → Bool
works pkg dest = true

abbrev now : PackageMetadata → ℕ
now pkg = 60

abbrev world : World
world = record {
  system_prefix = none;
  registry = some (vim ∷ musl ∷ []);
  installs = works;
  now = now;
  saves = λ state. true;
}

abbrev installed_package : Text → Text → Bool → InstalledPackage
installed_package name version pinned = record {
  name = name;
  version = version;
  install_date = 5;
  pinned = pinned;
}

-- An old vim, which is pinned, and an old musl.
abbrev old : InstallState
old =
    (units "vim", installed_package (units "vim") (units "1") true)
    ∷ (units "musl", installed_package (units "musl") (units "1") false)
    ∷ []

abbrev want : List Text
want = units "vim" ∷ []

abbrev local : Text
local = units "/usr/local"

abbrev fresh : Text → InstalledPackage
fresh name = record { name = name; version = units "2"; install_date = 60; pinned = false }

installs_both : run_install world [] want false ≡ record {
  actions =
      snapshot (units "install")
      ∷ installed musl local
      ∷ installed vim local
      ∷ saved ((units "vim", fresh (units "vim")) ∷ (units "musl", fresh (units "musl")) ∷ [])
      ∷ [];
  failure = none;
}
unfolding run_install resolve visit visit_package visit_deps visit_roots contains remove new_index
    find parse_dep_name resolve_install_dest validate_install_dest normalize components
    components_of component_of segments join
installs_both = refl

abbrev only_musl : PackageMetadata → Text → Bool
only_musl pkg dest = text_eq pkg.name (units "musl")

abbrev failing : World
failing = record world { installs = only_musl }

-- The one that is installed is not recorded.
fails_at_vim : (run_install failing [] want false).failure ≡ some (not_installed (units "vim"))
unfolding run_install resolve visit visit_package visit_deps visit_roots contains remove new_index
    find parse_dep_name resolve_install_dest validate_install_dest normalize components
    components_of component_of segments join
fails_at_vim = refl

upgrades_musl :
    plan_upgrades none old (new_index (vim ∷ musl ∷ []))
    ≡ record {
      name = units "musl";
      current = installed_package (units "musl") (units "1") false;
      latest = musl;
    }
      ∷ []
unfolding plan_upgrades new_index find
upgrades_musl = refl

run_install-none_saved_example : none_saved (run_install failing [] want false).actions ≡ true
run_install-none_saved_example =
    run_install-none_saved failing [] want false (not_installed (units "vim")) fails_at_vim

some_pending : pending [] want ≢ []
unfolding pending get
some_pending h = cc

run_install-HasInstalled_example :
    HasInstalled world [] (pending [] want) (units "musl") (run_install world [] want false).actions
run_install-HasInstalled_example =
    run_install-HasInstalled world [] (units "musl") want some_pending
      (ap (λ r. r.failure) installs_both)

plan_upgrades-IsUpgrade_example :
    (plan_upgrades none old (new_index (vim ∷ musl ∷ []))
      ≡ plan_upgrades (some (keys old)) old (new_index (vim ∷ musl ∷ [])))
    × All
        (IsUpgrade old (new_index (vim ∷ musl ∷ [])))
        (plan_upgrades (some want) old (new_index (vim ∷ musl ∷ [])))
plan_upgrades-IsUpgrade_example =
    plan_upgrades-IsUpgrade (some want) old (new_index (vim ∷ musl ∷ [])) refl

abbrev offline : Network
offline = record { parse_host = λ url. none; fetch = λ url. none; sha256 = λ bytes. [] }

abbrev temp : TempFile
temp = record { created = true; takes = λ done chunk. true; flushes = true }

prefix_parts :
    components (units "/mnt/root") ≡ root_dir ∷ normal (units "mnt") ∷ normal (units "root") ∷ []
unfolding components components_of component_of segments
prefix_parts = refl

install_package-refuses-prefix_example :
    (path : Text) × (install_dest (some (units "/mnt/root")) none ≡ accepted path)
    × (components path
        ≡ root_dir
          ∷ normal (units "mnt")
          ∷ normal (units "root")
          ∷ normal (units "usr")
          ∷ normal (units "local")
          ∷ [])
    × ((e : DestError) × (install_package offline temp host musl path ≡ err (bad_dest e)))
install_package-refuses-prefix_example =
    install_package-refuses-prefix offline temp host musl (some (units "/mnt/root")) none
      (units "/mnt/root") (units "mnt") (normal (units "root") ∷ []) refl prefix_parts refl refl
      refl
