-- ===== src/Site/Server/Paths.antt =====
-- Which path a request asks for.
use alpenglow.Prelude.{
  Text, true, false, ◌≡◌, ◌≢◌, ◌↔◌, refl, sym, ap, ◌∙◌, [], ◌∷◌, ◌++◌, reverse, all, or_text, inl,
  inr, ◌⊎◌,
}
use alpenglow.Prelude.Trim.{
  drop_end, taken_end, drop_end-append-taken_end, all-taken_end, head_fails,
  head_fails-reverse-drop_end, drop_end-append, drop_end_of_all,
}
use alpenglow.Site.Server.{is_slash, root_path, strip_slashes, route_path}

-- Slashes at the end of a path make no difference to what is asked for.
pub route_path-append :
    (p slashes : Text) → all is_slash slashes ≡ true → route_path (p ++ slashes) ≡ route_path p
unfolding route_path
route_path-append p slashes h = ap (λ t. or_text t root_path) (drop_end-append is_slash p slashes h)

or_text-cases :
    (t : Text) → ((t ≡ []) × (or_text t root_path ≡ root_path)) ⊎ (or_text t root_path ≡ t)
or_text-cases [] = inl (refl, refl)
or_text-cases (c ∷ t) = inr refl

ends_with : head_fails is_slash (reverse root_path) ≡ true → ⊥
ends_with h = cc

-- The root is asked for exactly if the path has no character but slashes.
pub route_path-eq-root_iff : (p : Text) → (route_path p ≡ root_path) ↔ (all is_slash p ≡ true)
unfolding route_path
route_path-eq-root_iff p = (to, λ h. ap (λ t. or_text t root_path) (drop_end_of_all is_slash p h))
  where
    whole : drop_end is_slash p ≡ [] → all is_slash p ≡ true
    whole e =
        ap (all is_slash) (sym (drop_end-append-taken_end is_slash p))
        ∙ ap (λ t. all is_slash (t ++ taken_end is_slash p)) e
        ∙ all-taken_end is_slash p

    no_root : drop_end is_slash p ≡ root_path → ⊥
    no_root e = ends_with (rw e at (head_fails-reverse-drop_end is_slash p))

    to : or_text (drop_end is_slash p) root_path ≡ root_path → all is_slash p ≡ true
    to e = elim (or_text-cases (drop_end is_slash p)) [
      | inl (empty, _) ↦ whole empty
      | inr same ↦ absurd (no_root (sym same ∙ e))
    ]

-- A path with a character that is no slash is asked for without slashes at its end, and not as the root.
pub route_path-ends :
    (p : Text)
    → all is_slash p ≡ false
    → (head_fails is_slash (reverse (route_path p)) ≡ true) × (route_path p ≢ root_path)
unfolding route_path
route_path-ends p h = (ends, λ e. cc (sym h ∙ (route_path-eq-root_iff p).0 e))
  where
    ends : head_fails is_slash (reverse (or_text (drop_end is_slash p) root_path)) ≡ true
    ends = elim (or_text-cases (drop_end is_slash p)) [
      | inl (_, at_root) ↦ cc (h, (route_path-eq-root_iff p).0 at_root)
      | inr same ↦ rw same (head_fails-reverse-drop_end is_slash p)
    ]

-- Such a path is asked for as what is before the slashes at its end.
pub route_path-parts :
    (p : Text)
    → all is_slash p ≡ false
    → (slashes : Text) × (p ≡ route_path p ++ slashes) × (all is_slash slashes ≡ true)
unfolding route_path
route_path-parts p h = elim (or_text-cases (drop_end is_slash p)) [
  | inl (_, at_root) ↦ cc (h, (route_path-eq-root_iff p).0 at_root)
  | inr same ↦ (
    taken_end is_slash p,
    sym (drop_end-append-taken_end is_slash p) ∙ ap (λ t. t ++ taken_end is_slash p) (sym same),
    all-taken_end is_slash p,
  )
]

or_root-ne-nil : (t : Text) → or_text t root_path ≢ []
or_root-ne-nil [] h = cc
or_root-ne-nil (c ∷ t) h = cc

pub route_path-ne-nil : (p : Text) → route_path p ≢ []
unfolding route_path strip_slashes
route_path-ne-nil p = or_root-ne-nil (strip_slashes p)
