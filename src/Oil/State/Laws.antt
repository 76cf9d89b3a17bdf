-- ===== src/Oil/State/Laws.antt =====
-- What is found after a package was marked or removed.
use alpenglow.Prelude.{
  ℕ, Text, true, false, ◌≡◌, refl, sym, ap, ◌∙◌, Option, none, some, [], ◌∷◌, if◌then◌else◌,
  text_eq, text_eq_iff, Bool-cases, inl, inr, arith,
}
use alpenglow.Oil.State.{
  InstalledPackage, InstallState, get, update, or_default, set_version, new_package, mark_installed,
  remove,
}

text_eq_same : (s t other : Text) → text_eq s t ≡ true → text_eq s other ≡ text_eq t other
text_eq_same s t other h = ap (λ r. text_eq r other) ((text_eq_iff s t).0 h)

same_as : (other s t : Text) → text_eq s t ≡ true → text_eq other s ≡ text_eq other t
same_as other s t h = ap (text_eq other) ((text_eq_iff s t).0 h)

-- The record of a package after it was marked: the new version and date; what was pinned stays so.
abbrev pub marked : Text → Text → ℕ → Option InstalledPackage → InstalledPackage
marked name version now none = new_package name version now
marked name version now (some pkg) = set_version version now pkg

get-update-same :
    (name : Text) (f : InstalledPackage → InstalledPackage) (state : InstallState)
    (pkg : InstalledPackage)
    → get state name ≡ some pkg
    → get (update name f state) name ≡ some (f pkg)
unfolding get update
get-update-same name f [] pkg h = cc
get-update-same name f ((key, p) ∷ state) pkg h = ground (arith, get-update-same name f state pkg)

get-update-other :
    (name other : Text) (f : InstalledPackage → InstalledPackage) (state : InstallState)
    → text_eq name other ≡ false
    → get (update name f state) other ≡ get state other
unfolding get update
get-update-other name other f [] h = refl
get-update-other name other f ((key, p) ∷ state) h =
    ground (arith, get-update-other name other f state h, text_eq_same key name other)

pub text_eq_refl : (t : Text) → text_eq t t ≡ true
text_eq_refl t = (text_eq_iff t t).1 refl

get_here :
    (name : Text) (pkg : InstalledPackage) (state : InstallState)
    → get ((name, pkg) ∷ state) name ≡ some pkg
unfolding get
get_here name pkg state = rw (text_eq_refl name) refl

get_there :
    (name other : Text) (pkg : InstalledPackage) (state : InstallState)
    → text_eq name other ≡ false
    → get ((name, pkg) ∷ state) other ≡ get state other
unfolding get
get_there name other pkg state differs = rw differs refl

module _ (state : InstallState) (name : Text) (version : Option Text) (now : ℕ) where
  marked_same :
      (o : Option InstalledPackage)
      → get state name ≡ o
      → get (mark_installed state name version now) name
        ≡ some (marked name (or_default version) now o)
  unfolding mark_installed
  marked_same none h = rw (mark_installed, h) (get_here name _ state)
  marked_same (some pkg) h = rw (mark_installed, h) (get-update-same name _ state pkg h)

  marked_other :
      (other : Text) (o : Option InstalledPackage)
      → get state name ≡ o
      → text_eq name other ≡ false
      → get (mark_installed state name version now) other ≡ get state other
  unfolding mark_installed
  marked_other other none h differs = rw (mark_installed, h) (get_there name other _ state differs)
  marked_other other (some pkg) h differs =
      rw (mark_installed, h) (get-update-other name other _ state differs)

-- After a package was marked, it is found with its version and the date, not pinned if it is new and
-- pinned as before if it is not; any other is found as before.
pub get-mark_installed :
    (state : InstallState) (name : Text) (version : Option Text) (now : ℕ) (other : Text)
    → get (mark_installed state name version now) other ≡ (
        if text_eq name other
        then some (marked name (or_default version) now (get state name))
        else get state other)
get-mark_installed state name version now other = elim (Bool-cases (text_eq name other)) [
  | inl same ↦ rw same (
      ap (get (mark_installed state name version now)) (sym ((text_eq_iff name other).0 same))
      ∙ marked_same state name version now (get state name) refl)
  | inr differs ↦
      rw differs (marked_other state name version now other (get state name) refl differs)
]

-- What was removed is not found, and any other is found as before.
pub get-remove :
    (state : InstallState) (name other : Text)
    → get (remove state name) other ≡ (if text_eq name other then none else get state other)
unfolding get remove
get-remove [] name other = ground arith
get-remove ((key, pkg) ∷ state) name other =
    ground (arith, get-remove state name other, text_eq_same key name other, same_as key name other)
