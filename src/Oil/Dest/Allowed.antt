-- ===== src/Oil/Dest/Allowed.antt =====
-- Which paths `validate_install_dest` accepts, and what it gives.
use alpenglow.Prelude.{
  ℕ, ◌==◌, Text, Bool, true, false, ◌≡◌, refl, sym, ap, ◌∙◌, some, [], ◌∷◌, ◌++◌, ◌||◌, all, any,
  arith, Bool-cases, Option-cases, inl, inr, append_assoc, text_eq, text_eq_iff, units,
  strip_prefix,
}
use mathlib.Core.Option.{some-injective}
use alpenglow.Oil.FilePath.{root_dir, Components, components, starts_with_slash, starts_with}
use alpenglow.Oil.FilePath.Parts.{components-append_slash}
use alpenglow.Oil.Extract.Walk.{is_normal, starts_with-append, starts_with_refl}
use alpenglow.Oil.Dest.{
  Dest, accepted, refused, ◌>>=◌, normalize, is_at_or_under, allowed, allow, validate_install_dest,
}
use alpenglow.Oil.Dest.Pushed.{accepted-injective, normalize-components}

append-strip_prefix : (p t : Text) {rest : Text} → strip_prefix p t ≡ some rest → t ≡ p ++ rest
append-strip_prefix [] t h = some-injective _ _ h
append-strip_prefix (c ∷ p) [] h = cc
append-strip_prefix (c ∷ p) (d ∷ t) h = elim (Bool-cases (c == d)) [
  | inl same ↦
      let first : d ≡ c = ground arith in
      ap (λ x. x ∷ t) first ∙ ap (λ l. c ∷ l) (append-strip_prefix p t (rw same at h))
  | inr other ↦ cc (rw other at h)
]

-- The text's test is the path's: by whole components.
under-starts_with :
    (path : Text) (c : ℕ) (prefix : Text)
    → is_at_or_under path (c ∷ prefix) ≡ true
    → starts_with (components path) (components (c ∷ prefix)) ≡ true
under-starts_with path c prefix h = elim (Bool-cases (text_eq path (c ∷ prefix))) [
  | inl same ↦
      ap (λ p. starts_with (components p) (components (c ∷ prefix)))
        ((text_eq_iff path (c ∷ prefix)).0 same)
      ∙ starts_with_refl (components (c ∷ prefix))
  | inr other ↦ elim (Option-cases (strip_prefix ((c ∷ prefix) ++ units "/") path)) [
    | inl e ↦ cc (rw (other, e) at h)
    | inr (rest, e) ↦
        ap (λ p. starts_with (components p) (components (c ∷ prefix)))
          (append-strip_prefix ((c ∷ prefix) ++ units "/") path e
            ∙ append_assoc (c ∷ prefix) (units "/") rest)
        ∙ rw (components-append_slash c prefix rest)
            (starts_with-append (components (c ∷ prefix)) _)
  ]
]

pub relative-refused :
    (path prefix : Text)
    → starts_with_slash path ≡ false
    → is_at_or_under path (b'/' ∷ prefix) ≡ false
relative-refused [] prefix h = refl
relative-refused (c ∷ path) prefix h =
    let flipped : (b'/' == c) ≡ false = ground arith in rw (h, flipped) refl

-- The places where a package may be installed.
abbrev pub is_allowed : Components → Bool
is_allowed path =
    starts_with path (components (units "/usr/local"))
    || starts_with path (components (units "/opt"))

pub allow-cases :
    (path given : Text)
    → allow given ≡ accepted path
    → (given ≡ path) × (any (is_at_or_under given) allowed ≡ true)
allow-cases path given h = elim (Bool-cases (any (is_at_or_under given) allowed)) [
  | inl within ↦ (accepted-injective (rw within at h), within)
  | inr outside ↦ cc (rw outside at h)
]

allowed-components :
    (path : Text) → any (is_at_or_under path) allowed ≡ true → is_allowed (components path) ≡ true
allowed-components path h = elim (Bool-cases (is_at_or_under path (units "/usr/local"))) [
  | inl local ↦ rw (under-starts_with path b'/' (units "usr/local") local) refl
  | inr other ↦
      let opt = under-starts_with path b'/' (units "opt") (ground arith) in ground (arith, opt)
]

-- A path is accepted only if it is absolute, has no `..`, and is /usr/local or /opt or lies below one
-- of the two; what is given has the components of the path.
pub validate_install_dest-IsAllowed :
    (dest path : Text)
    → validate_install_dest dest ≡ accepted path
    → (names : Components) × (components dest ≡ root_dir ∷ names)
      × (components path ≡ root_dir ∷ names)
      × (all is_normal names ≡ true)
      × (is_allowed (components path) ≡ true)
unfolding validate_install_dest
validate_install_dest-IsAllowed dest path h = validated (normalize (components dest) []) refl h
  where
    validated :
        (r : Dest)
        → normalize (components dest) [] ≡ r
        → (r >>= allow) ≡ accepted path
        → (names : Components) × (components dest ≡ root_dir ∷ names)
          × (components path ≡ root_dir ∷ names)
          × (all is_normal names ≡ true)
          × (is_allowed (components path) ≡ true)
    validated (refused e) n k = cc
    validated (accepted given) n k =
        let (same, within) = allow-cases path given k in
        elim (normalize-components dest given n) [
          | inl relative ↦ absurd (
              cc (
                sym within,
                relative-refused given (units "usr/local") relative,
                relative-refused given (units "opt") relative,
              ))
          | inr (names, is_dest, is_given, normal_names) ↦ (
            names,
            is_dest,
            ap components (sym same) ∙ is_given,
            normal_names,
            ap is_allowed (ap components (sym same)) ∙ allowed-components given within,
          )
        ]
