-- ===== src/Oil/FilePath/Parts.antt =====
-- The components of a joined path.
use alpenglow.Prelude.{
  ℕ, ◌==◌, Text, true, false, ◌≡◌, ◌≢◌, refl, sym, ap, ◌∙◌, List, [], ◌∷◌, ◌++◌, arith, Bool-cases,
  inl, inr, append_assoc, append-nil,
}
use alpenglow.Oil.FilePath.{
  root_dir, segments, component_of, components_of, first_component, relative_components, components,
  ends_with_slash, starts_with_slash, join, extend,
}

pub segments_cons : (t : Text) → (h : Text) × (r : List Text) × (segments t ≡ h ∷ r)
unfolding segments
segments_cons [] = ([], [], refl)
segments_cons (c ∷ t) = elim (Bool-cases (c == b'/')) [
  | inl slash ↦ ([], segments t, rw slash refl)
  | inr other ↦ let (h, r, e) = segments_cons t in (c ∷ h, r, rw (other, e) refl)
]

extend-append :
    (c : ℕ) (xs ys : List Text) {h : Text} {r : List Text}
    → xs ≡ h ∷ r
    → extend c (xs ++ ys) ≡ extend c xs ++ ys
extend-append c [] ys e = cc
extend-append c (x ∷ xs) ys e = refl

-- A slash ends a segment.
pub segments-append : (a b : Text) → segments (a ++ b'/' ∷ b) ≡ segments a ++ segments b
unfolding segments
segments-append [] b = refl
segments-append (c ∷ a) b = elim (Bool-cases (c == b'/')) [
  | inl slash ↦ rw slash (ap (λ r. [] ∷ r) (segments-append a b))
  | inr other ↦ rw other (
      ap (extend c) (segments-append a b)
      ∙ extend-append c (segments a) (segments b) (segments_cons a).2)
]

pub components_of-append :
    (xs ys : List Text) → components_of (xs ++ ys) ≡ components_of xs ++ components_of ys
unfolding components_of
components_of-append [] ys = refl
components_of-append (x ∷ xs) ys =
    ap (λ cs. component_of x ++ cs) (components_of-append xs ys)
    ∙ sym (append_assoc (component_of x) (components_of xs) (components_of ys))

relative_components-append :
    (xs ys : List Text) {h : Text} {r : List Text}
    → xs ≡ h ∷ r
    → relative_components (xs ++ ys) ≡ relative_components xs ++ components_of ys
relative_components-append [] ys e = cc
relative_components-append (x ∷ xs) ys e =
    ap (λ cs. first_component x ++ cs) (components_of-append xs ys)
    ∙ sym (append_assoc (first_component x) (components_of xs) (components_of ys))

pub components-append_slash :
    (c : ℕ) (a b : Text)
    → components ((c ∷ a) ++ b'/' ∷ b) ≡ components (c ∷ a) ++ components_of (segments b)
unfolding components
components-append_slash c a b = elim (Bool-cases (c == b'/')) [
  | inl slash ↦ rw slash (
      ap (λ cs. root_dir ∷ cs)
        (ap components_of (segments-append a b) ∙ components_of-append (segments a) (segments b)))
  | inr other ↦ rw other (
      ap relative_components (segments-append (c ∷ a) b)
      ∙ relative_components-append (segments (c ∷ a)) (segments b) (segments_cons (c ∷ a)).2)
]

ends_with_slash_lem : (t : Text) → ends_with_slash t ≡ true → (a : Text) × (t ≡ a ++ b'/' ∷ [])
ends_with_slash_lem [] h = cc
ends_with_slash_lem (c ∷ []) h = ([], ground arith)
ends_with_slash_lem (c ∷ d ∷ t) h =
    let (a, e) = ends_with_slash_lem (d ∷ t) h in (c ∷ a, ap (λ s. c ∷ s) e)

components_of-nil : components_of (segments []) ≡ []
unfolding segments components_of component_of
components_of-nil = refl

components-append_root :
    (b : Text) → components (b'/' ∷ b) ≡ components (b'/' ∷ []) ++ components_of (segments b)
unfolding components
components-append_root b =
    ap (λ cs. (root_dir ∷ cs) ++ components_of (segments b)) (sym components_of-nil)

components-append_ended :
    (a b : Text)
    → components ((a ++ b'/' ∷ []) ++ b) ≡ components (a ++ b'/' ∷ []) ++ components_of (segments b)
components-append_ended [] b = components-append_root b
components-append_ended (c ∷ a) b =
    ap components (append_assoc (c ∷ a) (b'/' ∷ []) b)
    ∙ components-append_slash c a b
    ∙ ap (λ cs. cs ++ components_of (segments b))
        (sym (
          components-append_slash c a []
          ∙ ap (λ cs. components (c ∷ a) ++ cs) components_of-nil
          ∙ append-nil (components (c ∷ a))))

-- A relative path that is joined to a path adds the components of its segments.
pub components-join :
    (dir part : Text)
    → dir ≢ []
    → starts_with_slash part ≡ false
    → components (join dir part) ≡ components dir ++ components_of (segments part)
unfolding join
components-join [] part h k = absurd (h refl)
components-join (c ∷ dir) part h k = elim (Bool-cases (ends_with_slash (c ∷ dir))) [
  | inl ended ↦
      let (a, e) = ends_with_slash_lem (c ∷ dir) ended in
      rw (k, ended)
        (ap (λ d. components (d ++ part)) e
          ∙ components-append_ended a part
          ∙ ap (λ d. components d ++ components_of (segments part)) (sym e))
  | inr open' ↦ rw (k, open') (components-append_slash c dir part)
]
