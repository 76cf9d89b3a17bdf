-- ===== src/Oil/Package.antt =====
-- system/oil/src/system/registry/mod.rs, lines 8-53 and 117-120: the package and the index of
-- packages. A hash map is an association list, and a stored reference to a package its position.
pub mod Find
use alpenglow.Prelude.{
  ℕ, ◌+◌, ◌==◌, Text, Bool, not, ◌||◌, Option, none, some, List, [], ◌∷◌, if◌then◌else◌, text_eq,
  take_while, get_elem?,
}
use alpenglow.Oil.Str.{str_trim, first_token}

pub record PackageMetadata : Type 0 where
  pub name : Text
  pub version : Text
  pub description : Text
  pub download_url : Text
  pub sha256 : Option Text
  pub installed_size : ℕ
  pub depends : List Text
  pub provides : List Text

-- `['=', '<', '>', '~']`
pub is_version_mark : ℕ → Bool
is_version_mark c = c == b'=' || c == b'<' || c == b'>' || c == b'~'

-- The name in a dependency such as `musl>=1.2`.
unfoldable pub parse_dep_name : Text → Text
unfolding is_version_mark first_token str_trim
parse_dep_name dep = str_trim (take_while (λ c. not (is_version_mark c)) (first_token dep))

abbrev pub Positions : Type 0
Positions = List (Text × ℕ)

-- `HashMap::get`
abbrev pub get : Text → Positions → Option ℕ
get key [] = none
get key ((k, i) ∷ m) = if text_eq key k then some i else get key m

-- `entry(key).or_insert(i)`
pub or_insert : Text → ℕ → Positions → Positions
or_insert key i m = elim (get key m) [ none ↦ (key, i) ∷ m | some _ ↦ m ]

-- The loop over `pkg.provides`.
pub or_insert_all : List Text → ℕ → Positions → Positions
or_insert_all [] i m = m
or_insert_all (key ∷ keys) i m = or_insert_all keys i (or_insert key i m)

pub record PackageIndex : Type 0 where
  pub packages : List PackageMetadata
  pub name_index : Positions
  pub provides_index : Positions

-- The loop of `new` over the packages from position `i` on.
pub index_from : ℕ → List PackageMetadata → Positions × Positions → Positions × Positions
index_from i [] maps = maps
index_from i (pkg ∷ pkgs) (names, provides) =
    index_from (i + 1) pkgs (or_insert pkg.name i names, or_insert_all pkg.provides i provides)

unfoldable pub new_index : List PackageMetadata → PackageIndex
unfolding index_from or_insert or_insert_all
new_index packages =
    let maps = index_from 0 packages ([], []) in
    record { packages = packages; name_index = maps.0; provides_index = maps.1 }

-- `if let Some(&i) = … { return Some(&self.packages[i]); }`, and what follows it.
abbrev pub at_or : List PackageMetadata → Option ℕ → Option PackageMetadata → Option PackageMetadata
at_or packages (some i) rest = get_elem? packages i
at_or packages none rest = rest

unfoldable pub find : PackageIndex → Text → Option PackageMetadata
find index name =
    at_or index.packages (get name index.name_index)
      (at_or index.packages (get name index.provides_index) none)
