-- ===== src/Oil/Command/Versions.antt =====
-- The state that a successful `install` saves.
use alpenglow.Prelude.{
  ℕ, Text, Bool, false, ◌≡◌, ◌≢◌, refl, ap, ◌∙◌, Option, none, some, List, [], ◌∷◌, ◌++◌,
  if◌then◌else◌, text_eq, text_eq_iff, map, Bool-cases, inl, inr, units,
}
use alpenglow.Oil.Package.{PackageMetadata}
use alpenglow.Oil.Resolver.{Outcome, ok, formula_not_found, circular, exhausted}
use alpenglow.Oil.Resolver.Resolve.{IsResolved, resolve-IsResolved}
use alpenglow.Oil.Dest.{Dest, accepted, refused}
use alpenglow.Oil.State.{InstalledPackage, InstallState, get}
use alpenglow.Oil.State.Laws.{marked, get-mark_installed}
use alpenglow.Oil.Command.{
  Action, snapshot, installed, saved, after, World, is_installed, pending, install_dest,
  record_package, install_into, install_resolved, install_pending, run_install,
}
use alpenglow.Oil.Command.Recorded.{record_all, install_all-done}

abbrev pub version_in : Option InstalledPackage → Option Text
version_in none = none
version_in (some pkg) = some pkg.version

abbrev pub is_pinned : Option InstalledPackage → Bool
is_pinned none = false
is_pinned (some pkg) = pkg.pinned

-- The version of the last package of the name, or else the one that was there.
abbrev pub last_version : List PackageMetadata → Text → Option Text → Option Text
last_version [] name version = version
last_version (pkg ∷ order) name version =
    last_version order name (if text_eq pkg.name name then some pkg.version else version)

version-marked :
    (name version : Text) (now : ℕ) (before : Option InstalledPackage)
    → (marked name version now before).version ≡ version
version-marked name version now none = refl
version-marked name version now (some pkg) = refl

pinned-marked :
    (name version : Text) (now : ℕ) (before : Option InstalledPackage)
    → (marked name version now before).pinned ≡ is_pinned before
pinned-marked name version now none = refl
pinned-marked name version now (some pkg) = refl

version-record_package :
    (world : World) (pkg : PackageMetadata) (state : InstallState) (name : Text)
    → version_in (get (record_package world pkg state) name)
      ≡ (if text_eq pkg.name name then some pkg.version else version_in (get state name))
version-record_package world pkg state name = elim (Bool-cases (text_eq pkg.name name)) [
  | inl same ↦
      rw (get-mark_installed state pkg.name (some pkg.version) (world.now pkg) name, same)
        (ap some (version-marked _ _ _ (get state pkg.name)))
  | inr other ↦
      rw (get-mark_installed state pkg.name (some pkg.version) (world.now pkg) name, other) refl
]

pinned-record_package :
    (world : World) (pkg : PackageMetadata) (state : InstallState) (name : Text)
    → is_pinned (get (record_package world pkg state) name) ≡ is_pinned (get state name)
pinned-record_package world pkg state name = elim (Bool-cases (text_eq pkg.name name)) [
  | inl same ↦
      rw (get-mark_installed state pkg.name (some pkg.version) (world.now pkg) name, same)
        (pinned-marked _ _ _ (get state pkg.name)
          ∙ ap (λ key. is_pinned (get state key)) ((text_eq_iff pkg.name name).0 same))
  | inr other ↦
      rw (get-mark_installed state pkg.name (some pkg.version) (world.now pkg) name, other) refl
]

version-record_all :
    (world : World) (order : List PackageMetadata) (state : InstallState) (name : Text)
    → version_in (get (record_all world order state) name)
      ≡ last_version order name (version_in (get state name))
version-record_all world [] state name = refl
version-record_all world (pkg ∷ order) state name =
    version-record_all world order (record_package world pkg state) name
    ∙ ap (last_version order name) (version-record_package world pkg state name)

pinned-record_all :
    (world : World) (order : List PackageMetadata) (state : InstallState) (name : Text)
    → is_pinned (get (record_all world order state) name) ≡ is_pinned (get state name)
pinned-record_all world [] state name = refl
pinned-record_all world (pkg ∷ order) state name =
    pinned-record_all world order (record_package world pkg state) name
    ∙ pinned-record_package world pkg state name

-- The packages that are needed were installed, each after those that it depends on, and then the state
-- was saved, in which a name has the version of the last of them that has the name, or that from
-- before, and is pinned as before.
pub record HasInstalled (world : World) (state : InstallState) (names : List Text) (name : Text)
    (actions : List Action) : Type 0 where
  pub registry : List PackageMetadata
  pub loaded : world.registry ≡ some registry
  pub order : List PackageMetadata
  pub resolved : IsResolved registry (is_installed state) names (ok order)
  pub dest : Text
  pub accepted_dest : install_dest world.system_prefix none ≡ accepted dest
  pub final : InstallState
  pub in_order :
      actions
      ≡ snapshot (units "install") ∷ (map (λ pkg. installed pkg dest) order ++ saved final ∷ [])
  pub version : version_in (get final name) ≡ last_version order name (version_in (get state name))
  pub pin : is_pinned (get final name) ≡ is_pinned (get state name)

module _ (world : World) (state : InstallState) (name : Text) where
  installed_into :
      (registry order : List PackageMetadata) (names : List Text) (dest : Dest)
      → world.registry ≡ some registry
      → IsResolved registry (is_installed state) names (ok order)
      → install_dest world.system_prefix none ≡ dest
      → (install_into world order state dest).failure ≡ none
      → HasInstalled world state names name
          (after (snapshot (units "install") ∷ []) (install_into world order state dest)).actions
  installed_into registry order names (refused e) loaded resolved hd h = cc
  installed_into registry order names (accepted dest) loaded resolved hd h = record {
    registry = registry;
    loaded = loaded;
    order = order;
    resolved = resolved;
    dest = dest;
    accepted_dest = hd;
    final = record_all world order state;
    in_order =
        ap (λ actions. snapshot (units "install") ∷ actions)
          (install_all-done world dest order state h);
    version = version-record_all world order state name;
    pin = pinned-record_all world order state name;
  }

  installed_resolved :
      (registry : List PackageMetadata) (names : List Text) (found : Outcome (List PackageMetadata))
      → world.registry ≡ some registry
      → IsResolved registry (is_installed state) names found
      → (install_resolved world false state found).failure ≡ none
      → HasInstalled world state names name (install_resolved world false state found).actions
  installed_resolved registry names (ok order) loaded resolved h =
      installed_into registry order names (install_dest world.system_prefix none) loaded resolved
        refl h
  installed_resolved registry names (formula_not_found other) loaded resolved h = cc
  installed_resolved registry names (circular other) loaded resolved h = cc
  installed_resolved registry names exhausted loaded resolved h = cc

  installed_pending :
      (names : List Text) (registry : Option (List PackageMetadata))
      → world.registry ≡ registry
      → names ≢ []
      → (install_pending world false state names registry).failure ≡ none
      → HasInstalled world state names name
          (install_pending world false state names registry).actions
  installed_pending [] registry loaded some_pending h = absurd (some_pending refl)
  installed_pending (first ∷ names) none loaded some_pending h = cc
  installed_pending (first ∷ names) (some registry) loaded some_pending h =
      installed_resolved registry (first ∷ names) _ loaded
        (resolve-IsResolved registry (is_installed state) (first ∷ names)) h

  -- An `install` of packages of which some are not installed, if it succeeds, has installed what those
  -- need, in an order in which each comes after what it depends on, into the place for packages, and
  -- has then saved the state with their versions.
  pub run_install-HasInstalled :
      (packages : List Text)
      → pending state packages ≢ []
      → (run_install world state packages false).failure ≡ none
      → HasInstalled world state
          (pending state packages)
          name
          (run_install world state packages false).actions
  unfolding run_install
  run_install-HasInstalled packages some_pending h =
      installed_pending (pending state packages) world.registry refl some_pending h
