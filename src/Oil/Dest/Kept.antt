-- ===== src/Oil/Dest/Kept.antt =====
-- The paths that `validate_install_dest` leaves as they are.
use alpenglow.Prelude.{
  ℕ, ◌==◌, Text, Bool, true, false, not, ◌≡◌, refl, sym, ap, ◌∙◌, some, List, [], ◌∷◌, ◌++◌, ◌&&◌,
  map, all, any, arith, Bool-cases, inl, inr, append_assoc, append-nil, text_eq, text_eq_iff, units,
  strip_prefix,
}
use mathlib.Core.Path.{subst}
use alpenglow.Oil.FilePath.{
  normal, Components, segments, component_of, components_of, components, ends_with_slash, join,
}
use alpenglow.Oil.FilePath.Parts.{components-append_slash}
use alpenglow.Oil.Dest.{
  accepted, normalize, is_some, is_at_or_under, allowed, validate_install_dest,
}
use alpenglow.Oil.Dest.Pushed.{IsSegment, relative-segment}

abbrev pub is_plain : Text → Bool
is_plain t = all (λ c. not (c == b'/')) t

-- What may stand between two slashes of a path, and is kept there.
abbrev pub is_name : Text → Bool
is_name [] = false
is_name (c ∷ t) =
    is_plain (c ∷ t) && (not (text_eq (c ∷ t) (units ".")) && not (text_eq (c ∷ t) (units "..")))

abbrev pub render : Text → List Text → Text
render base [] = base
render base (name ∷ names) = render (base ++ b'/' ∷ name) names

segments-is_plain : (t : Text) → is_plain t ≡ true → IsSegment t
unfolding segments
segments-is_plain [] h = refl
segments-is_plain (c ∷ t) h =
    let other : (c == b'/') ≡ false = ground arith in
    rw (other, segments-is_plain t (ground arith)) refl

component_of-is_name : (t : Text) → is_name t ≡ true → component_of t ≡ normal t ∷ []
unfolding component_of
component_of-is_name [] h = cc
component_of-is_name (c ∷ t) h =
    let one : text_eq (c ∷ t) (units ".") ≡ false = ground arith in
    let two : text_eq (c ∷ t) (units "..") ≡ false = ground arith in rw (one, two) refl

name-plain : (t : Text) → is_name t ≡ true → is_plain t ≡ true
name-plain [] h = refl
name-plain (c ∷ t) h = ground arith

components_of-is_name : (t : Text) → is_name t ≡ true → components_of (segments t) ≡ normal t ∷ []
unfolding components_of
components_of-is_name t h =
    ap components_of (segments-is_plain t (name-plain t h))
    ∙ ap (λ cs. cs ++ []) (component_of-is_name t h)

open_plain : (t : Text) → is_plain t ≡ true → ends_with_slash t ≡ false
open_plain [] h = refl
open_plain (c ∷ []) h = ground arith
open_plain (c ∷ d ∷ t) h = open_plain (d ∷ t) (ground arith)

open_after : (a b : Text) → is_name b ≡ true → ends_with_slash (a ++ b'/' ∷ b) ≡ false
open_after [] [] h = cc
open_after [] (c ∷ b) h = open_plain (c ∷ b) (name-plain (c ∷ b) h)
open_after (d ∷ []) b h = open_after [] b h
open_after (d ∷ e ∷ a) b h = open_after (e ∷ a) b h

components-render :
    (c : ℕ) (base : Text) (names : List Text)
    → all is_name names ≡ true
    → components (render (c ∷ base) names) ≡ components (c ∷ base) ++ map normal names
components-render c base [] h = sym (append-nil (components (c ∷ base)))
components-render c base (name ∷ names) h =
    components-render c (base ++ b'/' ∷ name) names (ground arith)
    ∙ ap (λ cs. cs ++ map normal names)
        (components-append_slash c base name
          ∙ ap (λ cs. components (c ∷ base) ++ cs) (components_of-is_name name (ground arith)))
    ∙ append_assoc (components (c ∷ base)) (normal name ∷ []) (map normal names)

join-name :
    (c : ℕ) (base name : Text)
    → is_name name ≡ true
    → ends_with_slash (c ∷ base) ≡ false
    → join (c ∷ base) name ≡ (c ∷ base) ++ b'/' ∷ name
unfolding join
join-name c base name h k =
    rw (relative-segment name (segments-is_plain name (name-plain name h)), k) refl

normalize-names :
    (c : ℕ) (base : Text) (names : List Text)
    → all is_name names ≡ true
    → ends_with_slash (c ∷ base) ≡ false
    → normalize (map normal names) (c ∷ base) ≡ accepted (render (c ∷ base) names)
unfolding normalize
normalize-names c base [] h k = refl
normalize-names c base (name ∷ names) h k =
    ap (normalize (map normal names)) (join-name c base name (ground arith) k)
    ∙ normalize-names c (base ++ b'/' ∷ name) names (ground arith)
        (open_after (c ∷ base) name (ground arith))

strip_prefix-append : (p t : Text) → strip_prefix p (p ++ t) ≡ some t
strip_prefix-append [] t = refl
strip_prefix-append (c ∷ p) t = ground (arith, strip_prefix-append p t)

append-render :
    (p base : Text) (names : List Text) → render (p ++ base) names ≡ p ++ render base names
append-render p base [] = refl
append-render p base (name ∷ names) =
    ap (λ b. render b names) (append_assoc p base (b'/' ∷ name))
    ∙ append-render p (base ++ b'/' ∷ name) names

some-IsAtOrUnder :
    (p path rest : Text) → path ≡ (p ++ units "/") ++ rest → is_at_or_under path p ≡ true
some-IsAtOrUnder p path rest e =
    let stripped : is_some (strip_prefix (p ++ units "/") path) ≡ true =
      ap (λ t. is_some (strip_prefix (p ++ units "/") t)) e
      ∙ ap is_some (strip_prefix-append (p ++ units "/") rest) in
    ground (arith, stripped)

under-render : (p : Text) (names : List Text) → is_at_or_under (render p names) p ≡ true
under-render p [] = rw ((text_eq_iff p p).1 refl) refl
under-render p (name ∷ names) = some-IsAtOrUnder p (render p (name ∷ names)) (render name names) (
    append-render p (b'/' ∷ name) names
    ∙ ap (λ t. p ++ t) (append-render (units "/") name names)
    ∙ sym (append_assoc p (units "/") (render name names)))

kept :
    (c : ℕ) (base : Text) (names : List Text)
    → all is_name names ≡ true
    → ends_with_slash (c ∷ base) ≡ false
    → ((cs : Components) → normalize (components (c ∷ base) ++ cs) [] ≡ normalize cs (c ∷ base))
    → any (is_at_or_under (render (c ∷ base) names)) allowed ≡ true
    → validate_install_dest (render (c ∷ base) names) ≡ accepted (render (c ∷ base) names)
unfolding validate_install_dest
kept c base names h k start within =
    let pushed : normalize (components (render (c ∷ base) names)) []
        ≡ accepted (render (c ∷ base) names) =
      ap (λ cs. normalize cs []) (components-render c base names h)
      ∙ start (map normal names)
      ∙ normalize-names c base names h k in
    rw (pushed, within) refl

kept_local :
    (names : List Text)
    → all is_name names ≡ true
    → validate_install_dest (render (units "/usr/local") names)
      ≡ accepted (render (units "/usr/local") names)
unfolding normalize components segments components_of component_of join
kept_local names h =
    kept b'/' (units "usr/local") names h refl (λ cs. refl)
      (rw (under-render (units "/usr/local") names) refl)

kept_opt :
    (names : List Text)
    → all is_name names ≡ true
    → validate_install_dest (render (units "/opt") names) ≡ accepted (render (units "/opt") names)
unfolding normalize components segments components_of component_of join
kept_opt names h =
    let within : is_at_or_under (render (units "/opt") names) (units "/opt") ≡ true =
      under-render (units "/opt") names in
    kept b'/' (units "opt") names h refl (λ cs. refl) (ground (arith, within))

-- A path that is /usr/local or /opt with names below it, each after one slash, is accepted as it is.
pub validate_install_dest-render :
    (prefix : Text) (names : List Text)
    → any (text_eq prefix) allowed ≡ true
    → all is_name names ≡ true
    → validate_install_dest (render prefix names) ≡ accepted (render prefix names)
validate_install_dest-render prefix names h k =
    elim (Bool-cases (text_eq prefix (units "/usr/local"))) [
      | inl local ↦
          subst (λ p. validate_install_dest (render p names) ≡ accepted (render p names))
            (sym ((text_eq_iff prefix (units "/usr/local")).0 local)) (kept_local names k)
      | inr other ↦
          subst (λ p. validate_install_dest (render p names) ≡ accepted (render p names))
            (sym ((text_eq_iff prefix (units "/opt")).0 (ground arith))) (kept_opt names k)
    ]
