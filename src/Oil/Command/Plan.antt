-- ===== src/Oil/Command/Plan.antt =====
-- Which packages `upgrade` takes.
use mathlib.Core.Path.{subst}
use alpenglow.Prelude.{
  Text, Bool, true, false, not, ◌≡◌, refl, sym, ap, ◌∙◌, Option, none, some, List, [], ◌∷◌, ◌++◌,
  if◌then◌else◌, text_eq, all, All, All-append, Bool-cases, inl, inr, arith,
}
use alpenglow.Oil.Package.{PackageMetadata, PackageIndex, find}
use alpenglow.Oil.State.{InstalledPackage, InstallState, get}
use alpenglow.Oil.State.Laws.{text_eq_refl}
use alpenglow.Oil.State.Keys.{is_key, is_keyed}
use alpenglow.Oil.Command.Operations.{
  Upgrade, upgrade_found, upgrade_of, plan_named, plan_everything, plan_upgrades,
}

-- The package is installed, not pinned, and the index has another version of it.
pub record IsUpgrade (state : InstallState) (index : PackageIndex) (u : Upgrade) : Type 0 where
  pub installed : get state u.name ≡ some u.current
  pub unpinned : u.current.pinned ≡ false
  pub found : find index u.name ≡ some u.latest
  pub differs : text_eq u.latest.version u.current.version ≡ false

upgrade_found-IsUpgrade :
    (state : InstallState) (index : PackageIndex) (name : Text) (current : InstalledPackage)
    (latest : Option PackageMetadata)
    → get state name ≡ some current
    → current.pinned ≡ false
    → find index name ≡ latest
    → All (IsUpgrade state index) (upgrade_found name current latest)
upgrade_found-IsUpgrade state index name current none installed unpinned found = tt
upgrade_found-IsUpgrade state index name current (some latest) installed unpinned found =
    elim (Bool-cases (text_eq latest.version current.version)) [
      | inl same ↦ rw same tt
      | inr differs ↦ rw differs (
        record { installed = installed; unpinned = unpinned; found = found; differs = differs },
        tt,
      )
    ]

unless-All :
    (P : Upgrade → Type 0) (b : Bool) (us : List Upgrade)
    → (b ≡ false → All P us)
    → All P (if b then [] else us)
unless-All P true us h = tt
unless-All P false us h = h refl

upgrade_of-IsUpgrade :
    (state : InstallState) (index : PackageIndex) (name : Text) (current : Option InstalledPackage)
    → get state name ≡ current
    → All (IsUpgrade state index) (upgrade_of index name current)
upgrade_of-IsUpgrade state index name none h = tt
upgrade_of-IsUpgrade state index name (some current) h =
    unless-All (IsUpgrade state index) current.pinned (upgrade_found name current (find index name))
      λ unpinned. upgrade_found-IsUpgrade state index name current (find index name) h unpinned refl

plan_named-IsUpgrade :
    (names : List Text) (state : InstallState) (index : PackageIndex)
    → All (IsUpgrade state index) (plan_named names state index)
unfolding plan_named
plan_named-IsUpgrade [] state index = tt
plan_named-IsUpgrade (name ∷ names) state index =
    All-append (IsUpgrade state index) (upgrade_of index name (get state name))
      (plan_named names state index) (upgrade_of-IsUpgrade state index name (get state name) refl)
      (plan_named-IsUpgrade names state index)

abbrev pub keys : InstallState → List Text
keys [] = []
keys ((key, pkg) ∷ state) = key ∷ keys state

-- A name that is not the first key is looked for behind it.
get-behind :
    (key : Text) (pkg : InstalledPackage) (state : InstallState) (name : Text)
    → text_eq key name ≡ false
    → get ((key, pkg) ∷ state) name ≡ get state name
unfolding get
get-behind key pkg state name h = rw h refl

text_eq_sym : (s t : Text) → text_eq s t ≡ text_eq t s
text_eq_sym [] [] = refl
text_eq_sym [] (d ∷ t) = refl
text_eq_sym (c ∷ s) [] = refl
text_eq_sym (c ∷ s) (d ∷ t) = ground (arith, text_eq_sym s t)

-- None of the keys is the name.
abbrev avoids : Text → List Text → Bool
avoids key names = all (λ name. not (text_eq key name)) names

keys-avoid :
    (state : InstallState) (key : Text) → is_key state key ≡ false → avoids key (keys state) ≡ true
keys-avoid [] key h = refl
keys-avoid ((k, pkg) ∷ state) key h = ground (arith, keys-avoid state key, text_eq_sym key k)

plan_named-behind :
    (key : Text) (pkg : InstalledPackage) (names : List Text) (state : InstallState)
    (index : PackageIndex)
    → avoids key names ≡ true
    → plan_named names ((key, pkg) ∷ state) index ≡ plan_named names state index
unfolding plan_named
plan_named-behind key pkg [] state index h = refl
plan_named-behind key pkg (name ∷ names) state index h =
    let found = get-behind key pkg state name (ground arith) in
    let rest = plan_named-behind key pkg names state index (ground arith) in
    ap (λ o. upgrade_of index name o ++ plan_named names ((key, pkg) ∷ state) index) found
    ∙ ap (λ us. upgrade_of index name (get state name) ++ us) rest

get-first :
    (key : Text) (pkg : InstalledPackage) (state : InstallState)
    → get ((key, pkg) ∷ state) key ≡ some pkg
unfolding get
get-first key pkg state = rw (text_eq_refl key) refl

plan_everything-keys :
    (state : InstallState) (index : PackageIndex)
    → is_keyed state ≡ true
    → plan_everything state index ≡ plan_named (keys state) state index
unfolding plan_everything plan_named
plan_everything-keys [] index h = refl
plan_everything-keys ((key, pkg) ∷ state) index h =
    let fresh : is_key state key ≡ false = ground arith in
    ap (λ us. upgrade_of index key (some pkg) ++ us)
      (plan_everything-keys state index (ground arith)
        ∙ sym (plan_named-behind key pkg (keys state) state index (keys-avoid state key fresh)))
    ∙ ap (λ o. upgrade_of index key o ++ plan_named (keys state) ((key, pkg) ∷ state) index)
        (sym (get-first key pkg state))

-- In a map that has each package under its own name once, an upgrade of everything is an upgrade of all
-- names in it; and whatever is upgraded is installed and not pinned, and the index has another version.
pub plan_upgrades-IsUpgrade :
    (targets : Option (List Text)) (state : InstallState) (index : PackageIndex)
    → is_keyed state ≡ true
    → (plan_upgrades none state index ≡ plan_upgrades (some (keys state)) state index)
      × All (IsUpgrade state index) (plan_upgrades targets state index)
unfolding plan_upgrades
plan_upgrades-IsUpgrade (some names) state index h =
    (plan_everything-keys state index h, plan_named-IsUpgrade names state index)
plan_upgrades-IsUpgrade none state index h =
    let same = plan_everything-keys state index h in
    (
      same,
      subst (All (IsUpgrade state index)) (sym same)
          (plan_named-IsUpgrade (keys state) state index),
    )
