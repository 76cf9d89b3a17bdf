-- ===== src/Oil/Resolver.antt =====
-- `resolve_install_order` and `visit_install_deps` of system/oil/src/system/registry/mod.rs (lines
-- 55-114). A hash set of names is a list; the recursion is on fuel, and the number of packages is
-- enough of it.
pub mod Sets
pub mod Order
pub mod Visit
pub mod Resolve
mod Tests
use alpenglow.Prelude.{
  ℕ, zero, suc, ◌+◌, Text, Bool, true, false, not, Option, none, some, List, [], ◌∷◌, ◌++◌,
  if◌then◌else◌, length,
}
use alpenglow.Oil.Package.{PackageMetadata, PackageIndex, parse_dep_name, find}
use alpenglow.Oil.Resolver.Sets.{contains, remove}

-- A value, one of the two errors, or the end of the fuel.
pub data Outcome (A : Type 0) : Type 0 where
  ok : A → Outcome A
  formula_not_found : Text → Outcome A
  circular : Text → Outcome A
  exhausted : Outcome A

infixl 5 ◌>>=◌
abbrev pub ◌>>=◌ : {A B : Type 0} → Outcome A → (A → Outcome B) → Outcome B
ok a >>= k = k a
formula_not_found name >>= k = formula_not_found name
circular name >>= k = circular name
exhausted >>= k = exhausted

-- The three collections that the search changes.
pub record Search : Type 0 where
  pub visiting : List Text
  pub scheduled : List Text
  pub order : List PackageMetadata

-- Lines 104-107: an empty name is passed over.
abbrev pub visit_named : (Text → Search → Outcome Search) → Text → Search → Outcome Search
visit_named visit [] s = ok s
visit_named visit (c ∷ name) s = visit (c ∷ name) s

-- Lines 102-108, for the call that visits a name.
unfoldable pub visit_deps : (Text → Search → Outcome Search) → List Text → Search → Outcome Search
visit_deps visit [] s = ok s
visit_deps visit (dep ∷ deps) s = do
  s' ← visit_named visit (parse_dep_name dep) s
  visit_deps visit deps s'

-- Lines 66-68.
unfoldable pub visit_roots : (Text → Search → Outcome Search) → List Text → Search → Outcome Search
visit_roots visit [] s = ok s
visit_roots visit (root ∷ roots) s = do s' ← visit root s; visit_roots visit roots s'

-- Line 100.
abbrev pub enter : PackageMetadata → Search → Search
enter pkg s = record s { visiting = pkg.name ∷ s.visiting }

-- Lines 110-112.
abbrev pub leave : PackageMetadata → Search → Search
leave pkg s = record s {
  visiting = remove pkg.name s.visiting;
  scheduled = pkg.name ∷ s.scheduled;
  order = s.order ++ pkg ∷ [];
}

-- Lines 89-113, with the search of the dependencies.
unfoldable pub visit_package :
    (List Text → Search → Outcome Search) → PackageMetadata → Search → Outcome Search
visit_package visit_all pkg s =
    if contains s.scheduled pkg.name
    then ok s
    else if contains s.visiting pkg.name
    then circular pkg.name
    else visit_all pkg.depends (enter pkg s) >>= λ s'. ok (leave pkg s')

-- Lines 62-64.
unfoldable pub start : Search
start = record { visiting = []; scheduled = []; order = [] }

module _ (index : PackageIndex) (skip : Text → Bool) where
  unfoldable pub visit : ℕ → Text → Search → Outcome Search
  visit zero name s = exhausted
  visit (suc fuel) name s =
      let visit_all = visit_deps (visit fuel) in
      if skip name then ok s else elim (find index name) [
        | none ↦ formula_not_found name
        | some pkg ↦ visit_package visit_all pkg s
      ]

  -- `resolve_install_order`, whose calls nest no deeper than there are packages.
  unfoldable pub resolve : List Text → Outcome (List PackageMetadata)
  unfolding start
  resolve roots = do s ← visit_roots (visit (suc (length index.packages))) roots start; ok (s.order)
