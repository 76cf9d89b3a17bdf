-- ===== src/Oil/Package/Find.antt =====
-- What `PackageIndex::find` finds, without the index.
use mathlib.Core.Option.{some-injective}
use alpenglow.Prelude.{◌<◌}
use alpenglow.Oil.Resolver.Sets.{contains, free, free_falls}
use alpenglow.Prelude.{
  ℕ, ◌+◌, Text, Bool, true, false, ◌≡◌, refl, sym, ap, ◌∙◌, Option, none, some, List, [], ◌∷◌, ◌++◌,
  arith, any, length, get_elem?, find_where, if◌then◌else◌, text_eq, text_eq_iff, Option-cases,
  Bool-cases, inl, inr, append_assoc,
}
use alpenglow.Oil.Package.{
  PackageMetadata, Positions, get, or_insert, or_insert_all, index_from, new_index, find, at_or,
}

-- The first value, if there is one, else the second.
abbrev or_else {ℓ} : {A : Type ℓ} → Option A → Option A → Option A
or_else none other = other
or_else (some a) other = some a

or_else-none : (o : Option PackageMetadata) → or_else o none ≡ o
or_else-none none = refl
or_else-none (some pkg) = refl

abbrev pub is_named : Text → PackageMetadata → Bool
is_named name pkg = text_eq name pkg.name

abbrev pub is_provided_by : Text → PackageMetadata → Bool
is_provided_by name pkg = any (text_eq name) pkg.provides

-- The first package of the name, and if there is none the first that provides it.
abbrev pub find_package : List PackageMetadata → Text → Option PackageMetadata
find_package packages name =
    or_else (find_where (is_named name) packages) (find_where (is_provided_by name) packages)

get_same : (j key : Text) (m : Positions) → text_eq j key ≡ true → get j m ≡ get key m
get_same j key m e = ap (λ t. get t m) ((text_eq_iff j key).0 e)

get-or_insert :
    (j key : Text) (i : ℕ) (m : Positions)
    → get j (or_insert key i m) ≡ or_else (get j m) (if text_eq j key then some i else none)
unfolding or_insert
get-or_insert j key i m = ground (arith, get_same j key m)

get-or_insert_all :
    (j : Text) (keys : List Text) (i : ℕ) (m : Positions)
    → get j (or_insert_all keys i m)
      ≡ or_else (get j m) (if any (text_eq j) keys then some i else none)
unfolding or_insert_all
get-or_insert_all j [] i m = ground arith
get-or_insert_all j (key ∷ keys) i m =
    ground (arith, get-or_insert_all j keys i (or_insert key i m), get-or_insert j key i m)

-- The position of the first package that passes the test, counted from `i`.
abbrev position : (PackageMetadata → Bool) → ℕ → List PackageMetadata → Option ℕ
position test i [] = none
position test i (pkg ∷ pkgs) = if test pkg then some i else position test (i + 1) pkgs

index_from-names :
    (j : Text) (i : ℕ) (pkgs : List PackageMetadata) (names provides : Positions)
    → get j (index_from i pkgs (names, provides)).0
      ≡ or_else (get j names) (position (is_named j) i pkgs)
unfolding index_from
index_from-names j i [] names provides = ground arith
index_from-names j i (pkg ∷ pkgs) names provides = ground (
  arith,
  index_from-names j (i + 1) pkgs (or_insert pkg.name i names)
      (or_insert_all pkg.provides i provides),
  get-or_insert j pkg.name i names,
)

index_from-provides :
    (j : Text) (i : ℕ) (pkgs : List PackageMetadata) (names provides : Positions)
    → get j (index_from i pkgs (names, provides)).1
      ≡ or_else (get j provides) (position (is_provided_by j) i pkgs)
unfolding index_from
index_from-provides j i [] names provides = ground arith
index_from-provides j i (pkg ∷ pkgs) names provides = ground (
  arith,
  index_from-provides j (i + 1) pkgs (or_insert pkg.name i names)
      (or_insert_all pkg.provides i provides),
  get-or_insert_all j pkg.provides i provides,
)

get_elem?-append_length :
    (xs ys : List PackageMetadata) (y : PackageMetadata)
    → get_elem? (xs ++ y ∷ ys) (length xs) ≡ some y
get_elem?-append_length [] ys y = refl
get_elem?-append_length (x ∷ xs) ys y = get_elem?-append_length xs ys y

length-snoc :
    (xs : List PackageMetadata) (y : PackageMetadata) → length (xs ++ y ∷ []) ≡ length xs + 1
length-snoc [] y = omega arith
length-snoc (x ∷ xs) y = omega (arith, length-snoc xs y)

at_or-position :
    (test : PackageMetadata → Bool) (xs ys : List PackageMetadata) (rest : Option PackageMetadata)
    → at_or (xs ++ ys) (position test (length xs) ys) rest ≡ or_else (find_where test ys) rest
at_or-position test xs [] rest = refl
at_or-position test xs (y ∷ ys) rest = elim (Bool-cases (test y)) [
  | inl passed ↦ rw passed (get_elem?-append_length xs ys y)
  | inr failed ↦ rw failed (
      ap (λ n. at_or (xs ++ y ∷ ys) (position test n ys) rest) (sym (length-snoc xs y))
      ∙ ap (λ pkgs. at_or pkgs (position test (length (xs ++ y ∷ [])) ys) rest)
          (sym (append_assoc xs (y ∷ []) ys))
      ∙ at_or-position test (xs ++ y ∷ []) ys rest)
]

pub find-eq-find_package :
    (packages : List PackageMetadata) (name : Text)
    → find (new_index packages) name ≡ find_package packages name
unfolding find new_index
find-eq-find_package packages name =
    let provides : at_or packages (position (is_provided_by name) 0 packages) none
        ≡ or_else (find_where (is_provided_by name) packages) none =
      at_or-position (is_provided_by name) [] packages none in
    ap (λ o. at_or packages o (at_or packages (get name (new_index packages).provides_index) none))
      (index_from-names name 0 packages [] [])
    ∙ at_or-position (is_named name) [] packages _
    ∙ ap (or_else (find_where (is_named name) packages)) (
        ap (λ o. at_or packages o none) (index_from-provides name 0 packages [] [])
        ∙ provides
        ∙ or_else-none (find_where (is_provided_by name) packages))

-- A package that is found and whose name is not in a set is one of those that are counted.
pub find_package-free_falls :
    (names : List Text) (packages : List PackageMetadata) (name : Text) (pkg : PackageMetadata)
    → find_package packages name ≡ some pkg
    → contains names pkg.name ≡ false
    → free (pkg.name ∷ names) packages < free names packages
find_package-free_falls names packages name pkg h out =
    elim (Option-cases (find_where (is_named name) packages)) [
      | inl unnamed ↦ free_falls (is_provided_by name) names packages pkg (rw unnamed at h) out
      | inr (p, found) ↦
          let same : p ≡ pkg = some-injective _ _ (rw found at h) in
          free_falls (is_named name) names packages pkg (found ∙ ap some same) out
    ]
