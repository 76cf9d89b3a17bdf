-- ===== src/Oil/Parse/Tests.antt =====
-- The theorem on the packages of an index at a small index.
use alpenglow.Prelude.{Text, units, ◌≡◌, refl, List, [], ◌∷◌, none}
use alpenglow.Oil.Str.{is_whitespace, str_trim, first_token}
use alpenglow.Oil.Package.{PackageMetadata, parse_dep_name}
use alpenglow.Oil.Parse.{
  split_on, split_whitespace, lines, split_stanzas, decimal_from, add_names, set_field,
  parse_apk_stanza, parse_stanzas, parse_apkindex,
}

abbrev content : Text
content = units "P:a\nV:1\nI:42\nD:so:libc>=1 !bad\np:cmd:a=1\n\nP:nameless version\n\n\n"

abbrev parsed : List PackageMetadata
parsed = parse_apkindex (units "m") (units "b") (units "r") (units "x") content

parses :
    parsed
    ≡ record {
      name = units "a";
      version = units "1";
      description = [];
      download_url = units "m/b/r/x/a-1.apk";
      sha256 = none;
      installed_size = 42;
      depends = units "so:libc" ∷ [];
      provides = units "cmd:a" ∷ [];
    }
      ∷ []
unfolding parse_apkindex parse_stanzas parse_apk_stanza lines split_stanzas split_on
    split_whitespace decimal_from add_names set_field parse_dep_name first_token str_trim
    is_whitespace
parses = refl
