-- ===== src/Oil/Extract/Names.antt =====
-- Where an entry of a payload is written.
use alpenglow.Prelude.{
  ℕ, ◌==◌, Text, Bool, true, false, not, ◌≡◌, ◌≢◌, refl, sym, ap, ◌∙◌, List, [], ◌∷◌, ◌++◌, ◌||◌,
  all, arith, Bool-cases, inl, inr, all-append, text_eq, text_eq_iff, units, drop_while,
}
use alpenglow.Oil.FilePath.{
  Components, segments, component_of, components_of, components, join, starts_with_slash, extend,
}
use alpenglow.Oil.FilePath.Parts.{segments_cons, components-join}
use alpenglow.Oil.Extract.{contains_dots, strip_entry, is_skipped}
use alpenglow.Oil.Extract.Walk.{is_normal}

pub contains_dots-tail :
    (c : ℕ) (t : Text) → contains_dots (c ∷ t) ≡ false → contains_dots t ≡ false
unfolding contains_dots
contains_dots-tail c [] h = refl
contains_dots-tail c (d ∷ t) h = ground arith

abbrev plain : Text → Bool
plain segment = not (contains_dots segment)

abbrev first_unit : List Text → ℕ
first_unit ((c ∷ _) ∷ _) = c
first_unit _ = 0

head_lem :
    (t : Text) (d : ℕ) (h : Text) (r : List Text)
    → segments t ≡ (d ∷ h) ∷ r
    → (rest : Text) × (t ≡ d ∷ rest)
unfolding segments
head_lem [] d h r e = cc
head_lem (c ∷ t) d h r e = elim (Bool-cases (c == b'/')) [
  | inl slash ↦ cc (rw slash at e)
  | inr other ↦
      let (g, q, f) = segments_cons t in
      let same : (c ∷ g) ∷ q ≡ (d ∷ h) ∷ r = ap (extend c) (sym f) ∙ rw other at e in
      (t, ap (λ x. x ∷ t) (ap (first_unit) same))
]

extend-plain :
    (c : ℕ) (t h : Text) (r : List Text)
    → segments t ≡ h ∷ r
    → contains_dots (c ∷ t) ≡ false
    → all plain (h ∷ r) ≡ true
    → all plain ((c ∷ h) ∷ r) ≡ true
unfolding contains_dots
extend-plain c t [] r e n k = k
extend-plain c t (d ∷ h) r e n k =
    let (rest, is_cons) = head_lem t d h r e in
    ground (arith, ap (λ s. contains_dots (c ∷ s)) is_cons)

segments-plain : (t : Text) → contains_dots t ≡ false → all plain (segments t) ≡ true
unfolding segments contains_dots
segments-plain [] h = refl
segments-plain (c ∷ t) h = elim (Bool-cases (c == b'/')) [
  | inl slash ↦ rw slash (segments-plain t (contains_dots-tail c t h))
  | inr other ↦
      let (g, q, f) = segments_cons t in
      rw (other, f)
        (extend-plain c t g q f h
          (ap (all plain) (sym f) ∙ segments-plain t (contains_dots-tail c t h)))
]

component_of-IsNormal : (s : Text) → plain s ≡ true → all is_normal (component_of s) ≡ true
unfolding component_of contains_dots
component_of-IsNormal s h = elim (Bool-cases (text_eq s (units ".."))) [
  | inl dots ↦ absurd (cc (sym h, ap plain ((text_eq_iff s (units "..")).0 dots)))
  | inr other ↦ elim (Bool-cases (text_eq s [] || text_eq s (units "."))) [
    | inl empty ↦ rw empty refl
    | inr full ↦ rw (full, other) refl
  ]
]

components_of-IsNormal :
    (ss : List Text) → all plain ss ≡ true → all is_normal (components_of ss) ≡ true
unfolding components_of
components_of-IsNormal [] h = refl
components_of-IsNormal (s ∷ ss) h =
    all-append is_normal (component_of s) (components_of ss)
    ∙ rw (component_of-IsNormal s (ground arith), components_of-IsNormal ss (ground arith)) refl

pub relative-drop_slashes : (t : Text) → starts_with_slash (drop_while (λ c. c == b'/') t) ≡ false
relative-drop_slashes [] = refl
relative-drop_slashes (c ∷ t) = ground (arith, relative-drop_slashes t)

relative-strip_entry : (name : Text) → starts_with_slash (strip_entry name) ≡ false
unfolding strip_entry
relative-strip_entry name = search relative-drop_slashes

-- The names below the directory that an entry is written to.
abbrev pub names_of : Text → Components
names_of name = components_of (segments (strip_entry name))

-- An entry that is not skipped is written to the names of its path below the directory, none of which
-- is the root, `.` or `..`.
pub components-join-strip_entry :
    (dest_dir name : Text)
    → dest_dir ≢ []
    → is_skipped name ≡ false
    → (components (join dest_dir (strip_entry name)) ≡ components dest_dir ++ names_of name)
      × (all is_normal (names_of name) ≡ true)
unfolding is_skipped
components-join-strip_entry dest_dir name h k = (
  components-join dest_dir (strip_entry name) h (relative-strip_entry name),
  components_of-IsNormal (segments (strip_entry name))
      (segments-plain (strip_entry name) (ground arith)),
)
