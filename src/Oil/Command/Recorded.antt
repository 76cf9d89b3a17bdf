-- ===== src/Oil/Command/Recorded.antt =====
-- What `install` has done when it succeeds, and when it fails.
use alpenglow.Prelude.{
  Text, Bool, true, false, not, ◌≡◌, ◌≢◌, refl, ap, Option, none, some, List, [], ◌∷◌, ◌++◌,
  if◌then◌else◌, map, all, Bool-cases, inl, inr, arith,
}
use alpenglow.Oil.Package.{PackageMetadata, new_index}
use alpenglow.Oil.Resolver.{Outcome, ok, formula_not_found, circular, exhausted, resolve}
use alpenglow.Oil.Dest.{Dest, accepted, refused}
use alpenglow.Oil.State.{InstallState}
use alpenglow.Oil.Command.{
  Action, would_install, snapshot, installed, saved, save_failed, Ran, Failure, not_installed,
  World, stop, after, is_installed, pending, install_dest, save, record_package, install_all,
  install_into, install_resolved, install_pending, run_install,
}

abbrev is_saved : Action → Bool
is_saved (saved state) = true
is_saved (would_install name version) = false
is_saved (save_failed state) = false
is_saved (snapshot label) = false
is_saved (installed pkg dest) = false

abbrev pub none_saved : List Action → Bool
none_saved actions = all (λ action. not (is_saved action)) actions

-- A run that fails has saved nothing.
abbrev SavesAtEnd : Ran → Type 0
SavesAtEnd r = (e : Failure) → r.failure ≡ some e → none_saved r.actions ≡ true

save-SavesAtEnd : (world : World) (state : InstallState) → SavesAtEnd (save world state)
save-SavesAtEnd world state e h = ground arith

stop-ne-none : {failure : Failure} → (stop failure).failure ≢ none
stop-ne-none h = cc

stop-SavesAtEnd : (failure : Failure) → SavesAtEnd (stop failure)
stop-SavesAtEnd failure e h = refl

choose-SavesAtEnd :
    (b : Bool) (r s : Ran) → SavesAtEnd r → SavesAtEnd s → SavesAtEnd (if b then r else s)
choose-SavesAtEnd true r s hr hs = hr
choose-SavesAtEnd false r s hr hs = hs

install_all-SavesAtEnd :
    (world : World) (dest : Text) (pkgs : List PackageMetadata) (state : InstallState)
    → SavesAtEnd (install_all world dest pkgs state)
unfolding install_all
install_all-SavesAtEnd world dest [] state = save-SavesAtEnd world state
install_all-SavesAtEnd world dest (pkg ∷ pkgs) state =
    let rest = install_all world dest pkgs (record_package world pkg state) in
    choose-SavesAtEnd (world.installs pkg dest) (after (installed pkg dest ∷ []) rest)
      (stop (not_installed pkg.name))
      (install_all-SavesAtEnd world dest pkgs (record_package world pkg state)) (stop-SavesAtEnd _)

install_into-SavesAtEnd :
    (world : World) (order : List PackageMetadata) (state : InstallState) (dest : Dest)
    → SavesAtEnd (install_into world order state dest)
install_into-SavesAtEnd world order state (accepted dest) =
    install_all-SavesAtEnd world dest order state
install_into-SavesAtEnd world order state (refused e) = stop-SavesAtEnd _

install_resolved-SavesAtEnd :
    (world : World) (dry_run : Bool) (state : InstallState) (order : Outcome (List PackageMetadata))
    → SavesAtEnd (install_resolved world dry_run state order)
install_resolved-SavesAtEnd world true state (ok order) e h = cc
install_resolved-SavesAtEnd world false state (ok order) e h =
    install_into-SavesAtEnd world order state (install_dest world.system_prefix none) e h
install_resolved-SavesAtEnd world dry_run state (formula_not_found name) e h = refl
install_resolved-SavesAtEnd world dry_run state (circular name) e h = refl
install_resolved-SavesAtEnd world dry_run state exhausted e h = refl

install_pending-SavesAtEnd :
    (world : World) (dry_run : Bool) (state : InstallState) (names : List Text)
    (registry : Option (List PackageMetadata))
    → SavesAtEnd (install_pending world dry_run state names registry)
install_pending-SavesAtEnd world dry_run state [] registry e h = cc
install_pending-SavesAtEnd world dry_run state (name ∷ names) none e h = refl
install_pending-SavesAtEnd world dry_run state (name ∷ names) (some packages) e h =
    install_resolved-SavesAtEnd world dry_run state
      (resolve (new_index packages) (is_installed state) (name ∷ names)) e h

-- An `install` that fails has saved no state, not even one with the packages that it had installed
-- before.
pub run_install-none_saved :
    (world : World) (state : InstallState) (packages : List Text) (dry_run : Bool) (e : Failure)
    → (run_install world state packages dry_run).failure ≡ some e
    → none_saved (run_install world state packages dry_run).actions ≡ true
unfolding run_install
run_install-none_saved world state packages dry_run =
    install_pending-SavesAtEnd world dry_run state (pending state packages) world.registry

-- The state after the packages were recorded in order.
abbrev pub record_all : World → List PackageMetadata → InstallState → InstallState
record_all world [] state = state
record_all world (pkg ∷ pkgs) state = record_all world pkgs (record_package world pkg state)

abbrev pub installs_then_save : World → Text → List PackageMetadata → InstallState → List Action
installs_then_save world dest order state =
    map (λ pkg. installed pkg dest) order ++ saved (record_all world order state) ∷ []

save-done :
    (world : World) (state : InstallState)
    → (save world state).failure ≡ none
    → (save world state).actions ≡ saved state ∷ []
save-done world state h = ground arith

pub install_all-done :
    (world : World) (dest : Text) (order : List PackageMetadata) (state : InstallState)
    → (install_all world dest order state).failure ≡ none
    → (install_all world dest order state).actions ≡ installs_then_save world dest order state
unfolding install_all
install_all-done world dest [] state h = save-done world state h
install_all-done world dest (pkg ∷ order) state h = elim (Bool-cases (world.installs pkg dest)) [
  | inl works ↦
      rw (install_all, works)
        (ap (λ actions. installed pkg dest ∷ actions)
          (install_all-done world dest order (record_package world pkg state)
            (rw (install_all, works) at h)))
  | inr fails ↦ absurd (stop-ne-none (rw (install_all, fails) at h))
]
