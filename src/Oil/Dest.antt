-- ===== src/Oil/Dest.antt =====
-- system/oil/src/util/security.rs, lines 62-103: where a package may be installed. The prefix of the
-- environment (OIL_SYSTEM_PREFIX) is a parameter.
pub mod Pushed
pub mod Allowed
pub mod Under
pub mod Kept
mod Tests
use alpenglow.Prelude.{
  ℕ, ◌==◌, Text, Bool, true, false, Option, none, some, List, [], ◌∷◌, ◌++◌, if◌then◌else◌, ◌||◌,
  text_eq, units, any, strip_prefix, drop_while,
}
use alpenglow.Oil.FilePath.{
  Component, root_dir, cur_dir, parent_dir, normal, Components, components, join,
}

pub data DestError : Type 0 where
  has_parent : DestError
  not_allowed : Text → DestError
  escapes_prefix : DestError

pub data Dest : Type 0 where
  accepted : Text → Dest
  refused : DestError → Dest

infixl 5 ◌>>=◌
abbrev pub ◌>>=◌ : Dest → (Text → Dest) → Dest
accepted path >>= k = k path
refused e >>= k = refused e

-- The loop of lines 64-73.
unfoldable pub normalize : Components → Text → Dest
normalize [] normalized = accepted normalized
normalize (root_dir ∷ rest) normalized = normalize rest (join normalized (units "/"))
normalize (cur_dir ∷ rest) normalized = normalize rest normalized
normalize (parent_dir ∷ rest) normalized = refused has_parent
normalize (normal part ∷ rest) normalized = normalize rest (join normalized part)

abbrev pub is_some : Option Text → Bool
is_some none = false
is_some (some _) = true

abbrev pub is_at_or_under : Text → Text → Bool
is_at_or_under path prefix =
    text_eq path prefix || is_some (strip_prefix (prefix ++ units "/") path)

abbrev pub allowed : List Text
allowed = units "/usr/local" ∷ units "/opt" ∷ []

abbrev pub allow : Text → Dest
allow path = if any (is_at_or_under path) allowed then accepted path else refused (not_allowed path)

unfoldable pub validate_install_dest : Text → Dest
validate_install_dest dest = normalize (components dest) [] >>= allow

-- `strip_prefix("/")`, or the path itself.
abbrev pub strip_root : Text → Text
strip_root path = drop_while (λ c. c == b'/') path

abbrev pub is_parent_dir : Component → Bool
is_parent_dir parent_dir = true
is_parent_dir root_dir = false
is_parent_dir cur_dir = false
is_parent_dir (normal _) = false

abbrev pub place_under : Option Text → Option Text → Text → Text
place_under (some prefix) system_prefix relative = join prefix (strip_root relative)
place_under none (some system_prefix) relative = join system_prefix (strip_root relative)
place_under none none relative = relative

abbrev pub refuse_parents : Text → Dest
refuse_parents dest =
    if any is_parent_dir (components dest) then refused escapes_prefix else accepted dest

unfoldable pub resolve_install_dest : Option Text → Option Text → Text → Dest
resolve_install_dest system_prefix prefix relative = validate_install_dest relative >>= λ path.
    refuse_parents (place_under prefix system_prefix path)
