-- ===== src/Ctl/Kernel/Paths.antt =====
-- The paths in the directory of the control groups, and the names of which they are made.
use alpenglow.Oil.Extract.Names.{contains_dots-tail}
use alpenglow.Prelude.{
  ◌==◌, Text, true, false, ◌≡◌, refl, sym, ap, ◌∙◌, [], ◌∷◌, ◌++◌, any, all, all-append,
  append_assoc, text_eq, text_eq_iff, units, Bool-cases, inl, inr, arith,
}
use alpenglow.Oil.FilePath.{Components, components, component_of, components_of, segments}
use alpenglow.Oil.FilePath.Parts.{components-append_slash, segments-append, components_of-append}
use alpenglow.Oil.Extract.{contains_dots}
use alpenglow.Oil.Extract.Walk.{is_normal}
use alpenglow.Ctl.Kernel.{is_plain_name}

abbrev pub root_of_groups : Text
root_of_groups = units "/sys/fs/cgroup/alpenglow"

-- The path lies in the directory of the control groups of Alpenglow, or is it, without `..`.
abbrev pub IsConfined : Text → Type 0
IsConfined path =
    (names : Components) × (components path ≡ components root_of_groups ++ names)
    × (all is_normal names ≡ true)

segments-whole : (name : Text) → any (λ c. c == b'/') name ≡ false → segments name ≡ name ∷ []
unfolding segments
segments-whole [] h = refl
segments-whole (c ∷ name) h =
    let other : (c == b'/') ≡ false = ground arith in
    let rest : any (λ c. c == b'/') name ≡ false = ground arith in
    rw (other, segments-whole name rest) refl

-- Two dots are the name of the parent directory.
not_parent : (name : Text) → contains_dots name ≡ false → text_eq name (units "..") ≡ false
unfolding contains_dots
not_parent name h = elim (Bool-cases (text_eq name (units ".."))) [
  | inl same ↦ cc (sym (ap contains_dots ((text_eq_iff name (units "..")).0 same)) ∙ h)
  | inr other ↦ other
]

component_of-is_normal :
    (name : Text) → text_eq name (units "..") ≡ false → all is_normal (component_of name) ≡ true
unfolding component_of
component_of-is_normal name h = ground arith

-- A name is one part of a path, or none.
abbrev pub IsPart : Text → Type 0
IsPart name = all is_normal (components_of (segments name)) ≡ true

pub plain-IsPart :
    (name : Text) → contains_dots name ≡ false → is_plain_name name ≡ true → IsPart name
unfolding components_of
plain-IsPart name dots plain =
    let no_slash : any (λ c. c == b'/') name ≡ false = ground arith in
    rw (segments-whole name no_slash) (
      all-append is_normal (component_of name) []
      ∙ rw (component_of-is_normal name (not_parent name dots)) refl)

pub dir-IsConfined : (name : Text) → IsPart name → IsConfined (root_of_groups ++ b'/' ∷ name)
dir-IsConfined name h = (
  components_of (segments name),
  components-append_slash b'/' (units "sys/fs/cgroup/alpenglow") name,
  h,
)

pub file-IsConfined :
    (name file : Text)
    → IsPart name
    → IsPart file
    → IsConfined ((root_of_groups ++ b'/' ∷ name) ++ b'/' ∷ file)
file-IsConfined name file hn hf = (
  components_of (segments name) ++ components_of (segments file),
  ap components (append_assoc root_of_groups (b'/' ∷ name) (b'/' ∷ file))
      ∙ components-append_slash b'/' (units "sys/fs/cgroup/alpenglow") (name ++ b'/' ∷ file)
      ∙ ap (λ cs. components root_of_groups ++ cs)
          (ap components_of (segments-append name file)
            ∙ components_of-append (segments name) (segments file)),
  all-append is_normal (components_of (segments name)) (components_of (segments file))
      ∙ rw (hn, hf) refl,
)

pub nil-IsPart : IsPart []
unfolding segments components_of component_of
nil-IsPart = refl

pub procs-IsPart : IsPart (units "cgroup.procs")
unfolding segments components_of component_of
procs-IsPart = refl

pub contains_dots-behind : (p t : Text) → contains_dots (p ++ t) ≡ false → contains_dots t ≡ false
contains_dots-behind [] t h = h
contains_dots-behind (c ∷ p) t h = contains_dots-behind p t (contains_dots-tail c (p ++ t) h)
