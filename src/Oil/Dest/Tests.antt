-- ===== src/Oil/Dest/Tests.antt =====
-- The theorems on the places to install to at concrete paths.
use alpenglow.Prelude.{
  Text, units, true, false, ◌≡◌, ◌≢◌, refl, none, some, [], ◌∷◌, ◌++◌, all, any,
}
use alpenglow.Oil.FilePath.{
  root_dir, Components, components, segments, component_of, components_of, join,
}
use alpenglow.Oil.Extract.Walk.{is_normal}
use alpenglow.Oil.Dest.{
  accepted, refused, has_parent, not_allowed, normalize, validate_install_dest,
  resolve_install_dest, is_parent_dir,
}
use alpenglow.Oil.Dest.Allowed.{is_allowed, validate_install_dest-IsAllowed}
use alpenglow.Oil.Dest.Under.{resolve_install_dest-under}
use alpenglow.Oil.Dest.Kept.{render, validate_install_dest-render}

abbrev given : Text
given = units "/opt//./tool/"

abbrev target : Text
target = units "/opt/tool"

normalizes : validate_install_dest given ≡ accepted target
unfolding validate_install_dest normalize components segments component_of components_of join
normalizes = refl

has_parent_refused : validate_install_dest (units "/opt/../etc") ≡ refused has_parent
unfolding validate_install_dest normalize components segments component_of components_of join
has_parent_refused = refl

optional_refused :
    validate_install_dest (units "/optional") ≡ refused (not_allowed (units "/optional"))
unfolding validate_install_dest normalize components segments component_of components_of join
optional_refused = refl

validate_install_dest-IsAllowed_example :
    (names : Components) × (components given ≡ root_dir ∷ names)
    × (components target ≡ root_dir ∷ names)
    × (all is_normal names ≡ true)
    × (is_allowed (components target) ≡ true)
validate_install_dest-IsAllowed_example = validate_install_dest-IsAllowed given target normalizes

abbrev prefix : Text
prefix = units "/mnt"

prefix_given : prefix ≢ []
prefix_given e = cc

resolves : resolve_install_dest none (some prefix) given ≡ accepted (units "/mnt/opt/tool")
unfolding resolve_install_dest validate_install_dest normalize components segments component_of
    components_of join
resolves = refl

validate_install_dest-render_example :
    validate_install_dest (render (units "/usr/local") (units "tool" ∷ units "v1.2" ∷ []))
    ≡ accepted (render (units "/usr/local") (units "tool" ∷ units "v1.2" ∷ []))
validate_install_dest-render_example =
    validate_install_dest-render (units "/usr/local") (units "tool" ∷ units "v1.2" ∷ []) refl refl

resolve_install_dest-under_example :
    (names : Components) × (components given ≡ root_dir ∷ names)
    × (all is_normal names ≡ true)
    × (is_allowed (components given) ≡ true)
    × (components (units "/mnt/opt/tool") ≡ components prefix ++ names)
    × (any is_parent_dir (components (units "/mnt/opt/tool")) ≡ false)
resolve_install_dest-under_example =
    resolve_install_dest-under none prefix given (units "/mnt/opt/tool") prefix_given resolves
