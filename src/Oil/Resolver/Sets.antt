-- ===== src/Oil/Resolver/Sets.antt =====
-- Sets of names, as lists.
use alpenglow.Prelude.{
  ℕ, ◌+◌, ◌<◌, ◌≤◌, Text, Bool, true, false, ◌≡◌, refl, ap, ◌||◌, List, [], ◌∷◌, any, if◌then◌else◌,
  text_eq, text_eq_iff, arith, some, find_where, Bool-cases, inl, inr,
}
use mathlib.Core.Option.{some-injective}
use alpenglow.Oil.Package.{PackageMetadata}

unfoldable pub contains : List Text → Text → Bool
contains xs name = any (text_eq name) xs

-- `HashSet::remove`
unfoldable pub remove : Text → List Text → List Text
remove name [] = []
remove name (x ∷ xs) = let rest = remove name xs in if text_eq name x then rest else x ∷ rest

pub contains-nil : (name : Text) → contains [] name ≡ false
unfolding contains
contains-nil name = refl

pub contains-cons :
    (x : Text) (xs : List Text) (name : Text)
    → contains (x ∷ xs) name ≡ (text_eq name x || contains xs name)
unfolding contains
contains-cons x xs name = refl

pub text_eq_refl : (t : Text) → text_eq t t ≡ true
text_eq_refl t = (text_eq_iff t t).1 refl

pub contains_self : (x : Text) (xs : List Text) → contains (x ∷ xs) x ≡ true
unfolding contains
contains_self x xs = rw (text_eq_refl x) refl

remove_other : (name : Text) (xs : List Text) → contains xs name ≡ false → remove name xs ≡ xs
unfolding contains remove
remove_other name [] h = refl
remove_other name (x ∷ xs) h = ground (arith, remove_other name xs)

-- What was not there before it was inserted is gone when it is removed.
pub remove-cons :
    (name : Text) (xs : List Text) → contains xs name ≡ false → remove name (name ∷ xs) ≡ xs
unfolding remove
remove-cons name xs h = rw (text_eq_refl name) (remove_other name xs h)

-- How many packages have a name that is not in the set.
abbrev pub free : List Text → List PackageMetadata → ℕ
free names [] = 0
free names (pkg ∷ pkgs) = (if contains names pkg.name then 0 else 1) + free names pkgs

free_mono :
    (x : Text) (names : List Text) (pkgs : List PackageMetadata)
    → free (x ∷ names) pkgs ≤ free names pkgs
free_mono x names [] = omega arith
free_mono x names (pkg ∷ pkgs) =
    ground (arith, free_mono x names pkgs, contains-cons x names pkg.name)

-- A name that is inserted takes a package out of the count.
pub free_falls :
    (test : PackageMetadata → Bool) (names : List Text) (pkgs : List PackageMetadata)
    (pkg : PackageMetadata)
    → find_where test pkgs ≡ some pkg
    → contains names pkg.name ≡ false
    → free (pkg.name ∷ names) pkgs < free names pkgs
free_falls test names [] pkg h out = cc
free_falls test names (p ∷ ps) pkg h out = elim (Bool-cases (test p)) [
  | inl passed ↦
      let same : p ≡ pkg = some-injective _ _ (rw passed at h) in
      rw (same, out, contains_self pkg.name names) (omega (arith, free_mono pkg.name names ps))
  | inr failed ↦ ground (arith, free_falls test names ps pkg, contains-cons pkg.name names p.name)
]

pub text_eq_of_contains :
    (xs : List Text) (x y : Text)
    → contains xs x ≡ true
    → contains xs y ≡ false
    → text_eq x y ≡ false
text_eq_of_contains xs x y h k = elim (Bool-cases (text_eq x y)) [
  | inl same ↦ cc (h, k, ap (contains xs) ((text_eq_iff x y).0 same))
  | inr other ↦ other
]
