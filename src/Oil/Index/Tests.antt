-- ===== src/Oil/Index/Tests.antt =====
-- The theorems on the index at small packages and a small archive.
use alpenglow.Prelude.{
  ℕ, zero, suc, ◌≤◌, Text, units, ◌≡◌, refl, none, List, [], ◌∷◌, ◌++◌, length, arith,
}
use alpenglow.Oil.FilePath.{components, segments, component_of, components_of}
use alpenglow.Oil.Str.{str_trim}
use alpenglow.Oil.Package.{PackageMetadata}
use alpenglow.Oil.Resolver.Sets.{contains}
use alpenglow.Oil.Index.{
  retain_unseen, max_index_size, slice, is_apkindex_entry, octal_from, tar_header_size, found,
  scan_entry, read_header, scan_from, scan_archive,
}

abbrev tool : Text → PackageMetadata
tool version = record {
  name = units "tool";
  version = version;
  description = [];
  download_url = [];
  sha256 = none;
  installed_size = 0;
  depends = [];
  provides = [];
}

abbrev packages : List PackageMetadata
packages = tool (units "2") ∷ tool (units "1") ∷ []

keeps_first : retain_unseen [] packages ≡ tool (units "2") ∷ []
unfolding retain_unseen contains
keeps_first = refl

abbrev zeros : ℕ → List ℕ
zeros zero = []
zeros (suc n) = 0 ∷ zeros n

-- A header with a name and a size of three bytes, and its block.
abbrev archive : Text → List ℕ
archive name = (name ++ zeros 116) ++ units "00000000003" ++ zeros 377 ++ units "P:a" ++ zeros 509

abbrev ascii : List ℕ → Text
ascii bytes = bytes

finds_index : scan_archive ascii (archive (units "APKINDEX")) ≡ found (units "P:a")
unfolding scan_archive scan_from read_header scan_entry tar_header_size octal_from slice
    is_apkindex_entry str_trim components segments component_of components_of
finds_index = refl

is_short : length (archive (units "APKINDEX")) ≤ max_index_size
is_short = omega arith
