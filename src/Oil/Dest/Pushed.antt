-- ===== src/Oil/Dest/Pushed.antt =====
-- What the loop that normalizes a path pushes.
use alpenglow.Prelude.{
  ℕ, ◌==◌, Text, true, false, ◌≡◌, ◌≢◌, ◌⊎◌, refl, sym, ap, ◌∙◌, List, [], ◌∷◌, ◌++◌, ◌||◌, All,
  all, Bool-cases, inl, inr, append_assoc, append-nil, text_eq, units,
}
use alpenglow.Oil.FilePath.{
  root_dir, parent_dir, normal, Components, segments, component_of, components_of, components,
  relative_components, starts_with_slash, ends_with_slash, join, extend,
}
use alpenglow.Oil.FilePath.Parts.{components-join}
use alpenglow.Oil.Extract.Walk.{is_normal}
use alpenglow.Oil.Dest.{Dest, accepted, refused, normalize}

-- A text without a slash is its one segment.
abbrev pub IsSegment : Text → Type 0
IsSegment segment = segments segment ≡ segment ∷ []

extend-IsSegment :
    (c : ℕ) (segment : Text) → (c == b'/') ≡ false → IsSegment segment → IsSegment (c ∷ segment)
unfolding segments
extend-IsSegment c segment h e = rw (h, e) refl

segments-IsSegment : (t : Text) → All IsSegment (segments t)
unfolding segments
segments-IsSegment [] = (refl, tt)
segments-IsSegment (c ∷ t) = elim (Bool-cases (c == b'/')) [
  | inl slash ↦ rw slash (refl, segments-IsSegment t)
  | inr other ↦ rw other (extended c (segments t) other (segments-IsSegment t))
]
  where
    extended :
        (c : ℕ) (ss : List Text)
        → (c == b'/') ≡ false
        → All IsSegment ss
        → All IsSegment (extend c ss)
    extended c [] h a = (extend-IsSegment c [] h refl, tt)
    extended c (s ∷ ss) h (i, a) = (extend-IsSegment c s h i, a)

-- What a segment that has a component is: `..`, or a name.
component-cases :
    (s : Text)
    → (component_of s ≡ [])
      ⊎ ((component_of s ≡ parent_dir ∷ []) ⊎ (component_of s ≡ normal s ∷ []))
unfolding component_of
component-cases s = elim (Bool-cases (text_eq s [] || text_eq s (units "."))) [
  | inl empty ↦ inl (rw empty refl)
  | inr full ↦ elim (Bool-cases (text_eq s (units ".."))) [
    | inl dots ↦ inr (inl (rw (full, dots) refl))
    | inr name ↦ inr (inr (rw (full, name) refl))
  ]
]

pub relative-segment : (s : Text) → IsSegment s → starts_with_slash s ≡ false
unfolding segments
relative-segment [] h = refl
relative-segment (c ∷ t) h = elim (Bool-cases (c == b'/')) [
  | inl slash ↦ cc (rw slash at h)
  | inr other ↦ other
]

abbrev path_of : Dest → Text
path_of (accepted path) = path
path_of (refused e) = []

pub accepted-injective : {a b : Text} → accepted a ≡ accepted b → a ≡ b
accepted-injective e = ap path_of e

join-filled : (base s : Text) → IsSegment s → base ≢ [] → join base s ≢ []
unfolding join
join-filled [] s i h = absurd (h refl)
join-filled (c ∷ base) s i h = elim (Bool-cases (ends_with_slash (c ∷ base))) [
  | inl ended ↦ rw (relative-segment s i, ended) (λ e. cc e)
  | inr open' ↦ rw (relative-segment s i, open') (λ e. cc e)
]

-- A segment that is pushed adds its components.
components-join_segment :
    (normalized s : Text)
    → IsSegment s
    → normalized ≢ []
    → components (join normalized s) ≡ components normalized ++ component_of s
unfolding components_of
components-join_segment normalized s i h =
    components-join normalized s h (relative-segment s i)
    ∙ ap (λ ss. components normalized ++ components_of ss) i
    ∙ ap (λ cs. components normalized ++ cs) (append-nil (component_of s))

-- What has been pushed from the names of segments.
push_segments :
    (ss : List Text) (normalized path : Text)
    → All IsSegment ss
    → normalized ≢ []
    → normalize (components_of ss) normalized ≡ accepted path
    → (components path ≡ components normalized ++ components_of ss)
      × (all is_normal (components_of ss) ≡ true)
unfolding normalize components_of
push_segments [] normalized path a h e =
    (ap components (sym (accepted-injective e)) ∙ sym (append-nil (components normalized)), refl)
push_segments (s ∷ ss) normalized path (i, a) h e = elim (component-cases s) [
  | inl nothing ↦
      let (is_path, is_all) = push_segments ss normalized path a h (rw nothing at e) in
      rw nothing (is_path, is_all)
  | inr (inl dots) ↦ cc (rw dots at e)
  | inr (inr name) ↦
      let (is_path, is_all) =
        push_segments ss (join normalized s) path a (join-filled normalized s i h) (rw name at e) in
      rw name (
        is_path
            ∙ ap (λ cs. cs ++ components_of ss)
                (components-join_segment normalized s i h
                  ∙ ap (λ cs. components normalized ++ cs) name)
            ∙ append_assoc (components normalized) (normal s ∷ []) (components_of ss),
        is_all,
      )
]

relative-join :
    (base s : Text)
    → IsSegment s
    → starts_with_slash base ≡ false
    → starts_with_slash (join base s) ≡ false
unfolding join
relative-join [] s i h = rw (relative-segment s i) (relative-segment s i)
relative-join (c ∷ base) s i h = elim (Bool-cases (ends_with_slash (c ∷ base))) [
  | inl ended ↦ rw (relative-segment s i, ended) h
  | inr open' ↦ rw (relative-segment s i, open') h
]

push_relative :
    (ss : List Text) (normalized path : Text)
    → All IsSegment ss
    → starts_with_slash normalized ≡ false
    → normalize (components_of ss) normalized ≡ accepted path
    → starts_with_slash path ≡ false
unfolding normalize components_of
push_relative [] normalized path a h e = ap starts_with_slash (sym (accepted-injective e)) ∙ h
push_relative (s ∷ ss) normalized path (i, a) h e = elim (component-cases s) [
  | inl nothing ↦ push_relative ss normalized path a h (rw nothing at e)
  | inr (inl dots) ↦ cc (rw dots at e)
  | inr (inr name) ↦
      push_relative ss (join normalized s) path a (relative-join normalized s i h) (rw name at e)
]

push_first :
    (ss : List Text) (path : Text)
    → All IsSegment ss
    → normalize (relative_components ss) [] ≡ accepted path
    → starts_with_slash path ≡ false
unfolding normalize components_of
push_first [] path a e = ap starts_with_slash (sym (accepted-injective e))
push_first (s ∷ ss) path (i, a) e = elim (Bool-cases (text_eq s (units "."))) [
  | inl dot ↦ push_relative ss [] path a refl (rw dot at e)
  | inr other ↦ push_relative (s ∷ ss) [] path (i, a) refl (rw other at e)
]

components_relative :
    (c : ℕ) (t : Text)
    → (c == b'/') ≡ false
    → components (c ∷ t) ≡ relative_components (segments (c ∷ t))
unfolding components
components_relative c t h = rw h refl

-- An absolute path is normalized to one with the same components, and a relative path to a relative one.
pub normalize-components :
    (dest path : Text)
    → normalize (components dest) [] ≡ accepted path
    → (starts_with_slash path ≡ false)
      ⊎ ((names : Components) × (components dest ≡ root_dir ∷ names)
          × (components path ≡ root_dir ∷ names)
          × (all is_normal names ≡ true))
unfolding components normalize join segments components_of component_of
normalize-components [] path e = inl (ap starts_with_slash (sym (accepted-injective e)))
normalize-components (c ∷ t) path e = elim (Bool-cases (c == b'/')) [
  | inl slash ↦
      let (is_path, is_all) =
        push_segments (segments t) (units "/") path (segments-IsSegment t) (λ f. cc f)
          (rw slash at e) in
      inr (components_of (segments t), rw slash refl, is_path, is_all)
  | inr other ↦ inl (
      push_first (segments (c ∷ t)) path (segments-IsSegment (c ∷ t))
        (ap (λ cs. normalize cs []) (sym (components_relative c t other)) ∙ e))
]
