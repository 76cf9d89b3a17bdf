-- ===== src/Oil/Parse.antt =====
-- system/oil/src/system/registry/apk.rs, lines 268-352: from the text of an index to the packages.
pub mod Names
pub mod Valid
mod Tests
use alpenglow.Prelude.{
  ℕ, ◌+◌, ◌-◌, ◌*◌, ◌^◌, ◌==◌, Text, Bool, true, false, not, Option, none, some, List, [], ◌∷◌,
  ◌++◌, if◌then◌else◌, ◌&&◌, ◌||◌, map, ltb, leb, reverse, units,
}
use alpenglow.Oil.Str.{is_whitespace, str_trim}
use alpenglow.Oil.FilePath.{extend}
use alpenglow.Oil.Package.{PackageMetadata, parse_dep_name}

-- `split` at each unit that passes the test.
pub split_on : (ℕ → Bool) → Text → List Text
split_on p [] = [] ∷ []
split_on p (c ∷ t) = let rest = split_on p t in if p c then [] ∷ rest else extend c rest

abbrev pub is_filled : Text → Bool
is_filled [] = false
is_filled (c ∷ t) = true

abbrev pub filled : List Text → List Text
filled [] = []
filled (t ∷ ts) = let rest = filled ts in if is_filled t then t ∷ rest else rest

pub split_whitespace : Text → List Text
split_whitespace t = filled (split_on is_whitespace t)

abbrev strip_return : Text → Text
strip_return [] = []
strip_return (c ∷ []) = if c == 13 then [] else c ∷ []
strip_return (c ∷ d ∷ t) = c ∷ strip_return (d ∷ t)

-- `lines`; the empty piece after the last line end, which `lines` leaves out, is passed over below.
pub lines : Text → List Text
lines t = map strip_return (split_on (λ c. c == 10) t)

-- `split("\n\n")`
pub split_stanzas : Text → List Text
split_stanzas [] = [] ∷ []
split_stanzas (c ∷ []) = (c ∷ []) ∷ []
split_stanzas (c ∷ d ∷ t) = elim (c == 10 && d == 10) [
  | true ↦ [] ∷ split_stanzas t
  | false ↦ extend c (split_stanzas (d ∷ t))
]

abbrev is_digit : ℕ → Bool
is_digit c = leb b'0' c && leb c b'9'

-- The digits that are left, and the number so far.
unfoldable pub decimal_from : ℕ → Text → Option ℕ
decimal_from n [] = some n
decimal_from n (c ∷ t) =
    let m = n * 10 + (c - b'0') in
    let rest = decimal_from m t in if is_digit c && ltb m (2 ^ 64) then rest else none

abbrev decimal_digits : Text → Option ℕ
decimal_digits [] = none
decimal_digits (c ∷ t) = decimal_from 0 (c ∷ t)

abbrev or_zero : Option ℕ → ℕ
or_zero none = 0
or_zero (some n) = n

-- `parse::<u64>`, which takes a plus sign.
abbrev pub parse_u64 : Text → Option ℕ
parse_u64 [] = none
parse_u64 (c ∷ t) = if c == b'+' then decimal_digits t else decimal_digits (c ∷ t)

-- The variables of `parse_apk_stanza`.
pub record Fields : Type 0 where
  pub name : Text
  pub version : Text
  pub description : Text
  pub installed_size : ℕ
  pub depends : List Text
  pub provides : List Text

abbrev pub no_fields : Fields
no_fields = record {
  name = [];
  version = [];
  description = [];
  installed_size = 0;
  depends = [];
  provides = [];
}

abbrev pub starts_with_mark : Text → Bool
starts_with_mark [] = false
starts_with_mark (c ∷ t) = c == b'!'

abbrev pub is_dependency : Text → Bool
is_dependency name = is_filled name && not (starts_with_mark name)

-- Lines 296-301 and 304-309: the names of the tokens that pass the test, after those that are there.
pub add_names : (Text → Bool) → List Text → List Text → List Text
add_names test [] names = names
add_names test (token ∷ tokens) names =
    let name = parse_dep_name token in
    add_names test tokens (if test name then names ++ name ∷ [] else names)

-- The match on the key.
pub set_field : ℕ → Text → Fields → Fields
set_field key val f =
    if key == b'P'
    then record f { name = val }
    else if key == b'V'
    then record f { version = val }
    else if key == b'T'
    then record f { description = val }
    else if key == b'I'
    then record f { installed_size = or_zero (parse_u64 val) }
    else if key == b'D'
    then record f { depends = add_names is_dependency (split_whitespace val) f.depends }
    else if key == b'p'
    then record f { provides = add_names is_filled (split_whitespace val) f.provides }
    else f

abbrev pub add_line : Text → Fields → Fields
add_line [] f = f
add_line (key ∷ []) f = f
add_line (key ∷ colon ∷ val) f = if colon == b':' then set_field key (str_trim val) f else f

abbrev pub add_lines : List Text → Fields → Fields
add_lines [] f = f
add_lines (line ∷ lines) f = add_lines lines (add_line line f)

abbrev pub push_some : Option PackageMetadata → List PackageMetadata → List PackageMetadata
push_some none pkgs = pkgs
push_some (some pkg) pkgs = pkg ∷ pkgs

module _ (mirror branch repo arch : Text) where
  abbrev pub url_of : Fields → Text
  url_of f =
      mirror
      ++ units "/"
      ++ branch
      ++ units "/"
      ++ repo
      ++ units "/"
      ++ arch
      ++ units "/"
      ++ f.name
      ++ units "-"
      ++ f.version
      ++ units ".apk"

  -- Lines 314-329.
  abbrev pub package_of : Fields → Option PackageMetadata
  package_of f =
      if not (is_filled f.name) || not (is_filled f.version)
      then none
      else some (record {
        name = f.name;
        version = f.version;
        description = f.description;
        download_url = url_of f;
        sha256 = none;
        installed_size = f.installed_size;
        depends = f.depends;
        provides = f.provides;
      })

  pub parse_apk_stanza : Text → Option PackageMetadata
  parse_apk_stanza stanza = package_of (add_lines (lines stanza) no_fields)

  pub parse_stanzas : List Text → List PackageMetadata
  parse_stanzas [] = []
  parse_stanzas (stanza ∷ stanzas) =
      let rest = parse_stanzas stanzas in
      if not (is_filled (str_trim stanza))
      then rest
      else push_some (parse_apk_stanza (str_trim stanza)) rest

  pub parse_apkindex : Text → List PackageMetadata
  parse_apkindex content = parse_stanzas (split_stanzas content)
