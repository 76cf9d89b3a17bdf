-- ===== src/Oil/FilePath.antt =====
-- `std::path` on Unix, as system/oil/src uses it: the components of a path, and `join`.
pub mod Parts
use alpenglow.Prelude.{
  ℕ, ◌==◌, Text, Bool, true, false, not, Option, none, some, List, [], ◌∷◌, ◌++◌, if◌then◌else◌,
  map, reverse, ◌||◌, ◌&&◌, text_eq, units,
}
use mathlib.Core.Option

pub data Component : Type 0 where
  root_dir cur_dir parent_dir : Component
  normal : Text → Component

abbrev pub same_component : Component → Component → Bool
same_component root_dir root_dir = true
same_component cur_dir cur_dir = true
same_component parent_dir parent_dir = true
same_component (normal a) (normal b) = text_eq a b
same_component _ _ = false

abbrev pub Components : Type 0
Components = List Component

-- A unit before the first of the segments.
abbrev pub extend : ℕ → List Text → List Text
extend c [] = (c ∷ []) ∷ []
extend c (segment ∷ rest) = (c ∷ segment) ∷ rest

-- The segments between the slashes.
unfoldable pub segments : Text → List Text
segments [] = [] ∷ []
segments (c ∷ t) = let rest = segments t in if c == b'/' then [] ∷ rest else extend c rest

-- The components of a segment that is not the first: "" and "." have none.
unfoldable pub component_of : Text → Components
component_of segment =
    if text_eq segment [] || text_eq segment (units ".")
    then []
    else if text_eq segment (units "..")
    then parent_dir ∷ []
    else normal segment ∷ []

unfoldable pub components_of : List Text → Components
components_of [] = []
components_of (segment ∷ rest) = component_of segment ++ components_of rest

abbrev pub first_component : Text → Components
first_component segment = if text_eq segment (units ".") then cur_dir ∷ [] else component_of segment

abbrev pub relative_components : List Text → Components
relative_components [] = []
relative_components (segment ∷ rest) = first_component segment ++ components_of rest

-- `Path::components`
unfoldable pub components : Text → Components
components [] = []
components (c ∷ t) =
    if c == b'/'
    then root_dir ∷ components_of (segments t)
    else relative_components (segments (c ∷ t))

abbrev pub ends_with_slash : Text → Bool
ends_with_slash [] = false
ends_with_slash (c ∷ []) = c == b'/'
ends_with_slash (c ∷ d ∷ t) = ends_with_slash (d ∷ t)

abbrev pub starts_with_slash : Text → Bool
starts_with_slash [] = false
starts_with_slash (c ∷ t) = c == b'/'

-- `PathBuf::push`, and so `Path::join`: an absolute path replaces what is there.
unfoldable pub join : Text → Text → Text
join base part =
    if starts_with_slash part
    then part
    else if text_eq base [] || ends_with_slash base
    then base ++ part
    else base ++ b'/' ∷ part

-- `Path::starts_with`: by whole components.
unfoldable pub starts_with : Components → Components → Bool
starts_with path [] = true
starts_with [] (_ ∷ _) = false
starts_with (c ∷ path) (d ∷ prefix) = same_component c d && starts_with path prefix

-- `PathBuf::pop` and `Path::parent`; a path that is empty or the root has no parent.
unfoldable pub pop : Components → Option Components
pop [] = none
pop (root_dir ∷ []) = none
pop (cur_dir ∷ []) = some []
pop (parent_dir ∷ []) = some []
pop (normal _ ∷ []) = some []
pop (c ∷ d ∷ path) = Option.map (λ rest. c ∷ rest) (pop (d ∷ path))
