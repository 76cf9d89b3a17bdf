-- ===== src/Oil/Resolver/Order.antt =====
-- What an install order has to be, and which packages it has to hold.
use alpenglow.Prelude.{
  Text, Bool, true, false, not, ◌≡◌, refl, ◌||◌, ◌&&◌, some, none, List, [], ◌∷◌, ◌++◌, any, all,
  text_eq, arith, inl, inr, Option-cases,
}
use alpenglow.Oil.Package.{PackageMetadata, PackageIndex, find, parse_dep_name}
use alpenglow.Oil.Resolver.Sets.{contains}

abbrev pub depends_on : PackageMetadata → Text → Bool
depends_on pkg name = any (λ dep. text_eq name (parse_dep_name dep)) pkg.depends

-- One set of names lies in another.
abbrev pub Within : List Text → List Text → Type 0
Within xs ys = (name : Text) → contains xs name ≡ true → contains ys name ≡ true

-- The names of packages that are taken one after the other, the latest first.
unfoldable pub names_after : List Text → List PackageMetadata → List Text
names_after done [] = done
names_after done (pkg ∷ pkgs) = names_after (pkg.name ∷ done) pkgs

pub names_after_snoc :
    (done : List Text) (pkgs : List PackageMetadata) (pkg : PackageMetadata)
    → names_after done (pkgs ++ pkg ∷ []) ≡ pkg.name ∷ names_after done pkgs
unfolding names_after
names_after_snoc done [] pkg = refl
names_after_snoc done (p ∷ pkgs) pkg = names_after_snoc (p.name ∷ done) pkgs pkg

module _ (index : PackageIndex) (skip : Text → Bool) where
  -- The name is skipped, or the package that is found for it is one of those done.
  abbrev pub met : List Text → Text → Bool
  met done name =
      skip name || elim (find index name) [ none ↦ false | some pkg ↦ contains done pkg.name ]

  abbrev pub met_named : List Text → Text → Bool
  met_named done [] = true
  met_named done (c ∷ name) = met done (c ∷ name)

  abbrev pub met_dep : List Text → Text → Bool
  met_dep done dep = met_named done (parse_dep_name dep)

  -- Each package comes once, and after the packages that it depends on.
  unfoldable pub is_ordered : List Text → List PackageMetadata → Bool
  is_ordered done [] = true
  is_ordered done (pkg ∷ pkgs) =
      not (contains done pkg.name)
      && all (met_dep done) pkg.depends
      && is_ordered (pkg.name ∷ done) pkgs

  pub is_ordered_snoc :
      (done : List Text) (pkgs : List PackageMetadata) (pkg : PackageMetadata)
      → is_ordered done pkgs ≡ true
      → contains (names_after done pkgs) pkg.name ≡ false
      → all (met_dep (names_after done pkgs)) pkg.depends ≡ true
      → is_ordered done (pkgs ++ pkg ∷ []) ≡ true
  unfolding is_ordered names_after
  is_ordered_snoc done [] pkg o c m = rw (c, m) refl
  is_ordered_snoc done (p ∷ pkgs) pkg o c m =
      ground (arith, is_ordered_snoc (p.name ∷ done) pkgs pkg)

  pub met_mono :
      (xs ys : List Text) (name : Text) → Within xs ys → met xs name ≡ true → met ys name ≡ true
  met_mono xs ys name w h = elim (Option-cases (find index name)) [
    | inl missing ↦ rw missing (rw missing at h)
    | inr (pkg, found) ↦ rw found (grown pkg (rw found at h))
  ]
    where
      grown :
          (pkg : PackageMetadata)
          → (skip name || contains xs pkg.name) ≡ true
          → (skip name || contains ys pkg.name) ≡ true
      grown pkg k = ground (arith, w pkg.name)

  pub met_named_mono :
      (xs ys : List Text) (name : Text)
      → Within xs ys
      → met_named xs name ≡ true
      → met_named ys name ≡ true
  met_named_mono xs ys [] w h = refl
  met_named_mono xs ys (c ∷ name) w h = met_mono xs ys (c ∷ name) w h

  pub all-met_mono :
      (xs ys deps : List Text)
      → Within xs ys
      → all (met_dep xs) deps ≡ true
      → all (met_dep ys) deps ≡ true
  all-met_mono xs ys [] w h = refl
  all-met_mono xs ys (dep ∷ deps) w h =
      let here = met_named_mono xs ys (parse_dep_name dep) w (ground arith) in
      let rest = all-met_mono xs ys deps w (ground arith) in rw (here, rest) refl

  -- A name that the roots need, by way of packages that are not skipped.
  pub data Needed (roots : List Text) : Text → Type 0 where
    root : {name : Text} → contains roots name ≡ true → Needed roots name
    dependency :
        {name dep : Text} {pkg : PackageMetadata}
        → Needed roots name
        → skip name ≡ false
        → find index name ≡ some pkg
        → depends_on pkg dep ≡ true
        → Needed roots dep

  -- A package that is found for a name that the roots need.
  abbrev pub IsNeeded : List Text → PackageMetadata → Type 0
  IsNeeded roots pkg =
      (name : Text) × Needed roots name × (skip name ≡ false) × (find index name ≡ some pkg)

  -- A name that a package depends on, by way of packages that are not skipped.
  pub data Leads (pkg : PackageMetadata) : Text → Type 0 where
    direct : {name : Text} → depends_on pkg name ≡ true → Leads pkg name
    through :
        {name dep : Text} {next : PackageMetadata}
        → Leads pkg name
        → skip name ≡ false
        → find index name ≡ some next
        → depends_on next dep ≡ true
        → Leads pkg dep

  pub Leads-Needed :
      {roots : List Text} {pkg : PackageMetadata} {name : Text}
      → IsNeeded roots pkg
      → Leads pkg name
      → Needed roots name
  Leads-Needed (n, needed, kept, found) (direct on) = dependency needed kept found on
  Leads-Needed h (through l kept found on) = dependency (Leads-Needed h l) kept found on

  -- A needed package that depends, in the end, on a name for which a package of its own name is found.
  abbrev pub IsCircular : List Text → Text → Type 0
  IsCircular roots name =
      (pkg : PackageMetadata) × (last : Text) × (found : PackageMetadata) × (pkg.name ≡ name)
      × IsNeeded roots pkg
      × Leads pkg last
      × (skip last ≡ false)
      × (find index last ≡ some found)
      × (found.name ≡ name)
