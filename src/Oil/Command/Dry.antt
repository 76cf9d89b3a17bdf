-- ===== src/Oil/Command/Dry.antt =====
-- What a dry run does.
use alpenglow.Prelude.{Text, Bool, true, false, ◌≡◌, refl, Option, none, some, List, [], ◌∷◌, all}
use alpenglow.Oil.Package.{PackageMetadata, PackageIndex, new_index, find}
use alpenglow.Oil.Resolver.{Outcome, ok, formula_not_found, circular, exhausted, resolve}
use alpenglow.Oil.Dest.{Dest, accepted, refused}
use alpenglow.Oil.State.{InstallState}
use alpenglow.Oil.Command.{
  Action, would_install, snapshot, installed, saved, save_failed, Ran, World, is_installed, pending,
  install_dest, would_all, install_resolved, install_pending, run_install,
}
use alpenglow.Oil.Command.Operations.{add_found, add_all, add_from, prefix_or, run_system_add}

abbrev is_said : Action → Bool
is_said (would_install name version) = true
is_said (snapshot label) = false
is_said (installed pkg dest) = false
is_said (saved state) = false
is_said (save_failed state) = false

abbrev pub only_said : List Action → Bool
only_said actions = all is_said actions

only_said-would_all : (pkgs : List PackageMetadata) → only_said (would_all pkgs) ≡ true
unfolding would_all
only_said-would_all [] = refl
only_said-would_all (pkg ∷ pkgs) = only_said-would_all pkgs

only_said-install_resolved :
    (world : World) (state : InstallState) (order : Outcome (List PackageMetadata))
    → only_said (install_resolved world true state order).actions ≡ true
only_said-install_resolved world state (ok order) = only_said-would_all order
only_said-install_resolved world state (formula_not_found name) = refl
only_said-install_resolved world state (circular name) = refl
only_said-install_resolved world state exhausted = refl

only_said-install_pending :
    (world : World) (state : InstallState) (names : List Text)
    (registry : Option (List PackageMetadata))
    → only_said (install_pending world true state names registry).actions ≡ true
only_said-install_pending world state [] registry = refl
only_said-install_pending world state (name ∷ names) none = refl
only_said-install_pending world state (name ∷ names) (some packages) =
    only_said-install_resolved world state
      (resolve (new_index packages) (is_installed state) (name ∷ names))

only_said-add_found :
    (world : World) (dest name : Text) (found : Option PackageMetadata) (rest : Ran)
    → only_said rest.actions ≡ true
    → only_said (add_found world dest true name found rest).actions ≡ true
only_said-add_found world dest name none rest h = refl
only_said-add_found world dest name (some pkg) rest h = h

only_said-add_all :
    (world : World) (index : PackageIndex) (dest : Text) (names : List Text)
    → only_said (add_all world index dest true names).actions ≡ true
unfolding add_all
only_said-add_all world index dest [] = refl
only_said-add_all world index dest (name ∷ names) =
    only_said-add_found world dest name (find index name) (add_all world index dest true names)
      (only_said-add_all world index dest names)

only_said-add_from :
    (world : World) (packages : List Text) (dest : Dest) (registry : Option (List PackageMetadata))
    → only_said (add_from world packages true dest registry).actions ≡ true
only_said-add_from world packages (refused e) registry = refl
only_said-add_from world packages (accepted dest) none = refl
only_said-add_from world packages (accepted dest) (some registry) =
    only_said-add_all world (new_index registry) dest packages

only_said-run_system_add :
    (world : World) (packages : List Text) (prefix : Option Text)
    → only_said (run_system_add world packages prefix true).actions ≡ true
unfolding run_system_add
only_said-run_system_add world [] prefix = refl
only_said-run_system_add world (name ∷ names) prefix =
    only_said-add_from world (name ∷ names)
      (install_dest world.system_prefix (prefix_or prefix world.system_prefix)) world.registry

-- A dry run of `install` or of `system add` only says what it would install: it takes no snapshot,
-- installs nothing and saves nothing, however it ends.
pub dry_run-only_said :
    (world : World) (state : InstallState) (packages : List Text) (prefix : Option Text)
    → (only_said (run_install world state packages true).actions ≡ true)
      × (only_said (run_system_add world packages prefix true).actions ≡ true)
unfolding run_install
dry_run-only_said world state packages prefix = (
  only_said-install_pending world state (pending state packages) world.registry,
  only_said-run_system_add world packages prefix,
)
