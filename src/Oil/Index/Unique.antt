-- ===== src/Oil/Index/Unique.antt =====
-- Of the packages of a name the first is kept.
use alpenglow.Prelude.{
  Text, Bool, true, not, ◌≡◌, refl, ap, ◌∙◌, none, List, [], ◌∷◌, ◌&&◌, if◌then◌else◌, find_where,
  text_eq, text_eq_iff, Bool-cases, inl, inr,
}
use alpenglow.Oil.Package.{PackageMetadata}
use alpenglow.Oil.Package.Find.{is_named}
use alpenglow.Oil.Resolver.Sets.{contains, contains-cons, contains-nil}
use alpenglow.Oil.Index.{retain_unseen}

-- No name is among these, or stands twice.
abbrev pub are_new : List Text → List PackageMetadata → Bool
are_new seen [] = true
are_new seen (pkg ∷ pkgs) = not (contains seen pkg.name) && are_new (pkg.name ∷ seen) pkgs

retain_unseen-are_new :
    (seen : List Text) (pkgs : List PackageMetadata) → are_new seen (retain_unseen seen pkgs) ≡ true
unfolding retain_unseen
retain_unseen-are_new seen [] = refl
retain_unseen-are_new seen (pkg ∷ pkgs) = elim (Bool-cases (contains seen pkg.name)) [
  | inl old ↦ rw (retain_unseen, old) (retain_unseen-are_new seen pkgs)
  | inr new ↦ rw (retain_unseen, new) (rw new (retain_unseen-are_new (pkg.name ∷ seen) pkgs))
]

find_where-retain_unseen :
    (name : Text) (seen : List Text) (pkgs : List PackageMetadata)
    → find_where (is_named name) (retain_unseen seen pkgs)
      ≡ (if contains seen name then none else find_where (is_named name) pkgs)
unfolding retain_unseen
find_where-retain_unseen name seen [] = elim (Bool-cases (contains seen name)) [
  | inl old ↦ rw old refl
  | inr new ↦ rw new refl
]
find_where-retain_unseen name seen (pkg ∷ pkgs) = elim (Bool-cases (text_eq name pkg.name)) [
  | inl same ↦
      let is_name : contains seen name ≡ contains seen pkg.name =
        ap (contains seen) ((text_eq_iff name pkg.name).0 same) in
      elim (Bool-cases (contains seen pkg.name)) [
        | inl old ↦
            rw (retain_unseen, old, is_name, old)
              (find_where-retain_unseen name seen pkgs ∙ rw (is_name, old) refl)
        | inr new ↦ rw (retain_unseen, new, is_name, new, same) refl
      ]
  | inr other ↦ elim (Bool-cases (contains seen pkg.name)) [
    | inl old ↦ rw (retain_unseen, old, other) (find_where-retain_unseen name seen pkgs)
    | inr new ↦
        rw (retain_unseen, new, other)
          (find_where-retain_unseen name (pkg.name ∷ seen) pkgs
            ∙ rw (contains-cons pkg.name seen name, other) refl)
  ]
]

-- The names of what is kept are distinct, and what is found under a name is what was there first.
pub retain_unseen-IsUnique :
    (pkgs : List PackageMetadata) (name : Text)
    → (are_new [] (retain_unseen [] pkgs) ≡ true)
      × (find_where (is_named name) (retain_unseen [] pkgs) ≡ find_where (is_named name) pkgs)
retain_unseen-IsUnique pkgs name = (
  retain_unseen-are_new [] pkgs,
  find_where-retain_unseen name [] pkgs ∙ rw (contains-nil name) refl,
)
