-- ===== src/Oil/Parse/Valid.antt =====
-- What the packages of an index are like.
use alpenglow.Prelude.{Text, Bool, true, ◌≡◌, ◌&&◌, all, text_eq}
use alpenglow.Oil.Package.{PackageMetadata, parse_dep_name}
use alpenglow.Oil.Parse.{is_filled, Fields, is_dependency}

-- A name that is read again as itself.
abbrev pub is_clean : Text → Bool
is_clean name = text_eq (parse_dep_name name) name

abbrev is_clean_dependency : Text → Bool
is_clean_dependency name = is_dependency name && is_clean name

abbrev is_clean_name : Text → Bool
is_clean_name name = is_filled name && is_clean name

abbrev IsCleanFields : Fields → Type 0
IsCleanFields f = (all is_clean_dependency f.depends ≡ true) × (all is_clean_name f.provides ≡ true)

abbrev pub is_valid : PackageMetadata → Bool
is_valid pkg =
    is_filled pkg.name
    && is_filled pkg.version
    && all is_clean_dependency pkg.depends
    && all is_clean_name pkg.provides
