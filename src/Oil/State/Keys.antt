-- ===== src/Oil/State/Keys.antt =====
-- The map has a package under its own name, and one under each name.
use alpenglow.Prelude.{
  ℕ, Text, Bool, true, false, not, ◌&&◌, ◌≡◌, refl, Option, none, [], ◌∷◌, if◌then◌else◌, text_eq,
  Option-cases, inl, inr, arith,
}
use alpenglow.Oil.State.{
  InstalledPackage, InstallState, get, update, or_default, set_version, mark_installed, remove,
}
use alpenglow.Oil.State.Laws.{text_eq_refl}

abbrev pub is_key : InstallState → Text → Bool
is_key [] name = false
is_key ((key, pkg) ∷ state) name =
    let rest = is_key state name in if text_eq key name then true else rest

-- Each package stands under its own name, and no name stands twice.
abbrev pub is_keyed : InstallState → Bool
is_keyed [] = true
is_keyed ((key, pkg) ∷ state) = text_eq key pkg.name && not (is_key state key) && is_keyed state

get-none : (state : InstallState) (name : Text) → get state name ≡ none → is_key state name ≡ false
unfolding get
get-none [] name h = refl
get-none ((key, pkg) ∷ state) name h = ground (arith, get-none state name)

is_key-update :
    (name : Text) (f : InstalledPackage → InstalledPackage) (state : InstallState) (other : Text)
    → is_key (update name f state) other ≡ is_key state other
unfolding update
is_key-update name f [] other = refl
is_key-update name f ((key, pkg) ∷ state) other = ground (arith, is_key-update name f state other)

is_keyed-update :
    (name version : Text) (now : ℕ) (state : InstallState)
    → is_keyed state ≡ true
    → is_keyed (update name (set_version version now) state) ≡ true
unfolding update
is_keyed-update name version now [] h = refl
is_keyed-update name version now ((key, pkg) ∷ state) h = ground (
  arith,
  is_keyed-update name version now state,
  is_key-update name (set_version version now) state key,
)

-- Marking a package keeps the map so.
pub is_keyed-mark_installed :
    (state : InstallState) (name : Text) (version : Option Text) (now : ℕ)
    → is_keyed state ≡ true
    → is_keyed (mark_installed state name version now) ≡ true
unfolding mark_installed
is_keyed-mark_installed state name version now h = elim (Option-cases (get state name)) [
  | inl missing ↦ rw (mark_installed, missing, text_eq_refl name, get-none state name missing) h
  | inr (pkg, found) ↦
      rw (mark_installed, found) (is_keyed-update name (or_default version) now state h)
]

is_key-remove :
    (state : InstallState) (name other : Text)
    → is_key state other ≡ false
    → is_key (remove state name) other ≡ false
unfolding remove
is_key-remove [] name other h = refl
is_key-remove ((key, pkg) ∷ state) name other h = ground (arith, is_key-remove state name other)

pub is_keyed-remove :
    (state : InstallState) (name : Text)
    → is_keyed state ≡ true
    → is_keyed (remove state name) ≡ true
unfolding remove
is_keyed-remove [] name h = refl
is_keyed-remove ((key, pkg) ∷ state) name h =
    ground (arith, is_keyed-remove state name, is_key-remove state name key)
