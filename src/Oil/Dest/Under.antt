-- ===== src/Oil/Dest/Under.antt =====
-- What `resolve_install_dest` gives under a prefix.
use alpenglow.Prelude.{
  ℕ, ◌==◌, Text, true, false, ◌≡◌, ◌≢◌, refl, sym, ap, ◌∙◌, Option, some, [], ◌∷◌, ◌++◌, all, any,
  Bool-cases, inl, inr, units,
}
use alpenglow.Oil.FilePath.{
  root_dir, Components, segments, component_of, components_of, components, starts_with_slash, join,
}
use alpenglow.Oil.FilePath.Parts.{components-join}
use alpenglow.Oil.Extract.Walk.{is_normal}
use alpenglow.Oil.Extract.Names.{relative-drop_slashes}
use alpenglow.Oil.Dest.{
  Dest, accepted, refused, ◌>>=◌, normalize, is_at_or_under, allowed, allow, validate_install_dest,
  strip_root, is_parent_dir, place_under, refuse_parents, resolve_install_dest,
}
use alpenglow.Oil.Dest.Pushed.{accepted-injective}
use alpenglow.Oil.Dest.Allowed.{
  relative-refused, is_allowed, allow-cases, validate_install_dest-IsAllowed,
}

absolute : (path : Text) → any (is_at_or_under path) allowed ≡ true → starts_with_slash path ≡ true
absolute path h = elim (Bool-cases (starts_with_slash path)) [
  | inl slash ↦ slash
  | inr relative ↦ absurd (
      cc (
        sym h,
        relative-refused path (units "usr/local") relative,
        relative-refused path (units "opt") relative,
      ))
]

validate-absolute :
    (dest path : Text) → validate_install_dest dest ≡ accepted path → starts_with_slash path ≡ true
unfolding validate_install_dest
validate-absolute dest path h = validated (normalize (components dest) []) h
  where
    validated : (r : Dest) → (r >>= allow) ≡ accepted path → starts_with_slash path ≡ true
    validated (refused e) k = cc
    validated (accepted given) k =
        let (same, within) = allow-cases path given k in
        ap starts_with_slash (sym same) ∙ absolute given within

strip_root_name : (c : ℕ) (t : Text) → (c == b'/') ≡ false → strip_root (c ∷ t) ≡ c ∷ t
strip_root_name c t h = rw h refl

segments-strip_root :
    (t : Text) → components_of (segments (strip_root t)) ≡ components_of (segments t)
unfolding components_of segments component_of
segments-strip_root [] = refl
segments-strip_root (c ∷ t) = elim (Bool-cases (c == b'/')) [
  | inl slash ↦ rw slash (segments-strip_root t)
  | inr other ↦ ap (λ p. components_of (segments p)) (strip_root_name c t other)
]

components-strip_root :
    (path : Text)
    → starts_with_slash path ≡ true
    → components path ≡ root_dir ∷ components_of (segments (strip_root path))
unfolding components
components-strip_root [] h = cc
components-strip_root (c ∷ t) h = rw h (ap (λ cs. root_dir ∷ cs) (sym (segments-strip_root t)))

abbrev names_below : Components → Components
names_below [] = []
names_below (_ ∷ names) = names

refuse_parents-cases :
    (path dest : Text)
    → refuse_parents dest ≡ accepted path
    → (dest ≡ path) × (any is_parent_dir (components path) ≡ false)
refuse_parents-cases path dest h = elim (Bool-cases (any is_parent_dir (components dest))) [
  | inl parent ↦ cc (rw parent at h)
  | inr clear ↦
      let same = accepted-injective (rw clear at h) in
      (same, ap (λ p. any is_parent_dir (components p)) (sym same) ∙ clear)
]

-- Under a prefix, a path is accepted only if it is one that may be installed to; it is then placed at
-- its names below the prefix, and what is given has no `..`.
pub resolve_install_dest-under :
    (system_prefix : Option Text) (prefix relative path : Text)
    → prefix ≢ []
    → resolve_install_dest system_prefix (some prefix) relative ≡ accepted path
    → (names : Components) × (components relative ≡ root_dir ∷ names)
      × (all is_normal names ≡ true)
      × (is_allowed (components relative) ≡ true)
      × (components path ≡ components prefix ++ names)
      × (any is_parent_dir (components path) ≡ false)
unfolding resolve_install_dest
resolve_install_dest-under system_prefix prefix relative path h e =
    resolved (validate_install_dest relative) refl e
  where
    resolved :
        (r : Dest)
        → validate_install_dest relative ≡ r
        → (r >>= λ given. refuse_parents (place_under (some prefix) system_prefix given))
          ≡ accepted path
        → (names : Components) × (components relative ≡ root_dir ∷ names)
          × (all is_normal names ≡ true)
          × (is_allowed (components relative) ≡ true)
          × (components path ≡ components prefix ++ names)
          × (any is_parent_dir (components path) ≡ false)
    resolved (refused e) n k = cc
    resolved (accepted given) n k =
        let (names, is_relative, is_given, normal_names, is_in) =
          validate_install_dest-IsAllowed relative given n in
        let (same, clear) = refuse_parents-cases path (join prefix (strip_root given)) k in
        let below : components_of (segments (strip_root given)) ≡ names =
          ap names_below
            (sym (components-strip_root given (validate-absolute relative given n)) ∙ is_given) in
        (
          names,
          is_relative,
          normal_names,
          ap is_allowed (is_relative ∙ sym is_given) ∙ is_in,
          ap components (sym same)
              ∙ components-join prefix (strip_root given) h (relative-drop_slashes given)
              ∙ ap (λ cs. components prefix ++ cs) below,
          clear,
        )
