-- ===== src/Oil/State.antt =====
-- system/oil/src/install.rs, lines 7-13, 22-24 and 56-89: the packages that are installed. A hash map is an association
-- list; the time of day is an argument.
pub mod Laws
pub mod Keys
mod Tests
use alpenglow.Prelude.{
  ℕ, Text, Bool, false, Option, none, some, List, [], ◌∷◌, if◌then◌else◌, text_eq,
}

pub record InstalledPackage : Type 0 where
  pub name : Text
  pub version : Text
  pub install_date : ℕ
  pub pinned : Bool

abbrev pub InstallState : Type 0
InstallState = List (Text × InstalledPackage)

-- `HashMap::get`
unfoldable pub get : InstallState → Text → Option InstalledPackage
get [] name = none
get ((key, pkg) ∷ state) name =
    let rest = get state name in if text_eq key name then some pkg else rest

-- What `get_mut` gives is changed.
unfoldable pub update : Text → (InstalledPackage → InstalledPackage) → InstallState → InstallState
update name f [] = []
update name f ((key, pkg) ∷ state) =
    let rest = update name f state in
    if text_eq key name then (key, f pkg) ∷ state else (key, pkg) ∷ rest

-- `unwrap_or_default`
abbrev pub or_default : Option Text → Text
or_default none = []
or_default (some version) = version

abbrev pub set_version : Text → ℕ → InstalledPackage → InstalledPackage
set_version version now pkg = record pkg { version = version; install_date = now }

abbrev pub new_package : Text → Text → ℕ → InstalledPackage
new_package name version now = record {
  name = name;
  version = version;
  install_date = now;
  pinned = false;
}

unfoldable pub mark_installed : InstallState → Text → Option Text → ℕ → InstallState
unfolding get update
mark_installed state name version now = elim (get state name) [
  | some pkg ↦ update name (set_version (or_default version) now) state
  | none ↦ (name, new_package name (or_default version) now) ∷ state
]

-- `HashMap::remove`
unfoldable pub remove : InstallState → Text → InstallState
remove [] name = []
remove ((key, pkg) ∷ state) name =
    let rest = remove state name in if text_eq key name then rest else (key, pkg) ∷ rest

abbrev pub clear : InstallState → InstallState
clear state = []
