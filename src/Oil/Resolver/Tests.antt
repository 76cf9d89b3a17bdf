-- ===== src/Oil/Resolver/Tests.antt =====
-- The theorems on the install order at concrete packages.
use mathlib.Core.Path.{subst}
use mathlib.Core.Option.{some-injective, none-ne-some}
use alpenglow.Prelude.{
  Text, units, Bool, true, false, ◌≡◌, ◌≢◌, refl, sym, ap, ◌∙◌, ◌⊎◌, inl, inr, none, some, List, [],
  ◌∷◌, arith, text_eq, text_eq_iff, length, Bool-cases,
}
use alpenglow.Oil.Package.{PackageMetadata, find, new_index, parse_dep_name}
use alpenglow.Oil.Package.Find.{find_package, find-eq-find_package}
use alpenglow.Oil.Resolver.{ok, resolve, visit, visit_deps, visit_package, visit_roots}
use alpenglow.Oil.Resolver.Sets.{contains, remove}
use alpenglow.Oil.Resolver.Order.{depends_on, Needed, root, dependency}
use alpenglow.Oil.Resolver.Resolve.{IsResolved, IsRanked, resolve-IsResolved, resolve_succeeds}

abbrev entry : Text → List Text → List Text → PackageMetadata
entry name depends provides = record {
  name = name;
  version = units "1.0-r0";
  description = [];
  download_url = [];
  sha256 = none;
  installed_size = 0;
  depends = depends;
  provides = provides;
}

abbrev musl : PackageMetadata
musl = entry (units "musl") [] (units "so:libc" ∷ [])

abbrev busybox : PackageMetadata
busybox = entry (units "busybox") (units "so:libc>=1" ∷ []) []

abbrev packages : List PackageMetadata
packages = busybox ∷ musl ∷ []

abbrev nothing : Text → Bool
nothing _ = false

abbrev roots : List Text
roots = units "busybox" ∷ units "musl" ∷ []

resolves : resolve (new_index packages) nothing roots ≡ ok (musl ∷ busybox ∷ [])
unfolding resolve visit visit_package visit_deps visit_roots contains remove new_index find
    parse_dep_name
resolves = refl

resolve-IsResolved_example :
    IsResolved packages nothing roots (resolve (new_index packages) nothing roots)
resolve-IsResolved_example = resolve-IsResolved packages nothing roots

found_cases :
    (name : Text) (pkg : PackageMetadata)
    → find_package packages name ≡ some pkg
    → (pkg ≡ busybox) ⊎ (pkg ≡ musl)
found_cases name pkg h = elim (Bool-cases (text_eq name (units "busybox"))) [
  | inl a ↦ inl (sym (some-injective _ _ (rw a at h)))
  | inr a ↦ elim (Bool-cases (text_eq name (units "musl"))) [
    | inl b ↦ inr (sym (some-injective _ _ (rw (a, b) at h)))
    | inr b ↦ elim (Bool-cases (text_eq name (units "so:libc"))) [
      | inl c ↦ inr (sym (some-injective _ _ (rw (a, b, c) at h)))
      | inr c ↦ absurd (none-ne-some _ (rw (a, b, c) at h))
    ]
  ]
]

-- The only dependency is that of busybox.
on_libc :
    (name : Text) (pkg : PackageMetadata) (dep : Text)
    → find (new_index packages) name ≡ some pkg
    → depends_on pkg dep ≡ true
    → (pkg ≡ busybox) × (dep ≡ units "so:libc")
unfolding parse_dep_name
on_libc name pkg dep h on =
    elim (found_cases name pkg (sym (find-eq-find_package packages name) ∙ h)) [
      | inl e ↦ (
        e,
        (text_eq_iff dep (units "so:libc")).0
            (libc_test (subst (λ p. depends_on p dep ≡ true) e on)),
      )
      | inr e ↦ cc (subst (λ p. depends_on p dep ≡ true) e on)
    ]
  where
    libc_test : depends_on busybox dep ≡ true → text_eq dep (units "so:libc") ≡ true
    libc_test k = ground arith

ranked : IsRanked packages nothing roots length
unfolding find new_index
ranked pkg dep next (name, needed, kept, found) on _ is_next =
    let (is_busybox, is_libc) = on_libc name pkg dep found on in
    let is_musl : some musl ≡ some next = ap (find (new_index packages)) (sym is_libc) ∙ is_next in
    omega (
      arith,
      ap (λ p. length p.name) (some-injective _ _ is_musl),
      ap (λ p. length p.name) is_busybox,
    )

Needed-names :
    (name : Text)
    → Needed (new_index packages) nothing roots name
    → (name ≡ units "busybox") ⊎ (name ≡ units "musl") ⊎ (name ≡ units "so:libc")
unfolding contains
Needed-names name (root h) = elim (Bool-cases (text_eq name (units "busybox"))) [
  | inl a ↦ inl ((text_eq_iff name (units "busybox")).0 a)
  | inr a ↦ inr (inl ((text_eq_iff name (units "musl")).0 (ground arith)))
]
Needed-names name (dependency {name = via} {pkg = pkg} n kept found on) =
    inr (inr ((on_libc via pkg name found on).1))

there :
    (name : Text)
    → Needed (new_index packages) nothing roots name
    → nothing name ≡ false
    → find (new_index packages) name ≢ none
unfolding find new_index
there name n _ missing = elim (Needed-names name n) [
  | inl e ↦ absurd (none-ne-some busybox (sym missing ∙ ap (find (new_index packages)) e))
  | inr (inl e) ↦ absurd (none-ne-some musl (sym missing ∙ ap (find (new_index packages)) e))
  | inr (inr e) ↦ absurd (none-ne-some musl (sym missing ∙ ap (find (new_index packages)) e))
]

resolve_succeeds_example :
    (order : List PackageMetadata) × (resolve (new_index packages) nothing roots ≡ ok order)
resolve_succeeds_example = resolve_succeeds packages nothing roots length ranked there
