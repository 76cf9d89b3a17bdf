-- ===== src/Oil/Resolver/Resolve.antt =====
-- What `resolve_install_order` returns.
use alpenglow.Prelude.{
  ℕ, suc, ◌<◌, ◌≤◌, Text, Bool, true, false, ◌≡◌, ◌≢◌, refl, sym, ap, ◌∙◌, some, none, List, [],
  ◌∷◌, all, All, length, arith,
}
use mathlib.Core.Path.{subst}
use alpenglow.Oil.Package.{PackageMetadata, find, new_index}
use alpenglow.Oil.Resolver.{
  Outcome, ok, formula_not_found, circular, exhausted, ◌>>=◌, Search, visit_roots, visit, start,
  resolve,
}
use alpenglow.Oil.Resolver.Sets.{contains, contains-cons, contains_self, contains-nil, free}
use alpenglow.Oil.Resolver.Order.{
  depends_on, names_after, met, met_mono, is_ordered, Needed, root, IsNeeded, Leads, direct,
  through, IsCircular, Leads-Needed,
}
use alpenglow.Oil.Resolver.Visit.{
  Explains, Explains->>=, Explains-map, IsVisit, Advances, Advances-refl, Advances-trans, IsSound,
  visit-IsVisit,
}

free-le-length : (names : List Text) (pkgs : List PackageMetadata) → free names pkgs ≤ length pkgs
free-le-length names [] = omega arith
free-le-length names (pkg ∷ pkgs) = ground (arith, free-le-length names pkgs)

module _ (packages : List PackageMetadata) (skip : Text → Bool) (roots : List Text) where
  -- An order has the packages that the roots need and no others, each once and after those that it
  -- depends on, and a package for each root that is not skipped. A name that is not found is needed
  -- and no package has or provides it. A circle has a package that depends on itself by name.
  abbrev pub IsResolved : Outcome (List PackageMetadata) → Type 0
  IsResolved (ok order) =
      (is_ordered (new_index packages) skip [] order ≡ true)
      × All (IsNeeded (new_index packages) skip roots) order
      × (all (met (new_index packages) skip (names_after [] order)) roots ≡ true)
  IsResolved (formula_not_found name) =
      Needed (new_index packages) skip roots name
      × (skip name ≡ false)
      × (find (new_index packages) name ≡ none)
  IsResolved (circular name) = IsCircular (new_index packages) skip roots name
  IsResolved exhausted = ⊥

  all-met_grown :
      (xs ys names : List Text)
      → ((name : Text) → contains xs name ≡ true → contains ys name ≡ true)
      → all (met (new_index packages) skip xs) names ≡ true
      → all (met (new_index packages) skip ys) names ≡ true
  all-met_grown xs ys [] w h = refl
  all-met_grown xs ys (name ∷ names) w h =
      rw
        (
          met_mono (new_index packages) skip xs ys name w (ground arith),
          all-met_grown xs ys names w (ground arith),
        )
        refl

  visit_roots_lem :
      (f : Text → Search → Outcome Search) (bound : ℕ)
      → IsVisit packages skip roots f bound
      → free [] packages < bound
      → (names : List Text) (s : Search) → s.visiting ≡ []
      → IsSound packages skip roots s
      → ((name : Text) → contains names name ≡ true → contains roots name ≡ true)
      → Explains packages skip roots
          (λ t.
            Advances packages skip roots s t
            × (all (met (new_index packages) skip t.scheduled) names ≡ true))
          (visit_roots f names s)
  unfolding visit_roots
  visit_roots_lem f bound v b [] s e h w = (Advances-refl packages skip roots s h, refl)
  visit_roots_lem f bound v b (name ∷ names) s e h w =
      Explains->>= packages skip roots _ _ (f name s) (visit_roots f names)
        (v name s (subst (λ vs. free vs packages < bound) (sym e) b) h
          (root (w name (contains_self name names)))
          (λ x i. absurd (nothing x (subst (λ vs. contains vs x ≡ true) e i))))
        λ t p.
          Explains-map packages skip roots _ _ (visit_roots f names t)
            (visit_roots_lem f bound v b names t (p.0.visiting ∙ e) p.0.sound
              (λ x i. w x (ground (arith, contains-cons name names x))))
            λ u q. (
              Advances-trans packages skip roots s t u p.0 q.0,
              rw
                  (
                    met_mono (new_index packages) skip t.scheduled u.scheduled name q.0.grows p.1,
                    q.1,
                  )
                  refl,
            )
    where
      nothing : (x : Text) → contains [] x ≡ true → ⊥
      nothing x i = cc (i, contains-nil x)

  start_empty : start.visiting ≡ []
  unfolding start
  start_empty = refl

  start-IsSound : IsSound packages skip roots start
  unfolding start is_ordered names_after
  start-IsSound = record { ordered = refl; synced = refl; needed = tt }

  -- The search comes to an end, for any packages and any roots, and what it returns is an install
  -- order or says what is wrong: the order holds exactly packages that the roots need, each once, after
  -- all that it depends on, and those of all roots; a name that is not found is needed, and no package
  -- has or provides it; a circle has a package that depends on itself by name.
  pub resolve-IsResolved : IsResolved (resolve (new_index packages) skip roots)
  unfolding resolve new_index
  resolve-IsResolved =
      let f = visit (new_index packages) skip (suc (length packages)) in
      let found =
        visit_roots_lem f (suc (length packages))
          (visit-IsVisit packages skip roots (suc (length packages)))
          (omega (arith, free-le-length [] packages)) roots start start_empty start-IsSound
          (λ x h. h) in
      returned (visit_roots f roots start) found
    where
      returned :
          (m : Outcome Search)
          → Explains packages skip roots
              (λ t.
                Advances packages skip roots start t
                × (all (met (new_index packages) skip t.scheduled) roots ≡ true))
              m
          → IsResolved (m >>= λ s. ok (s.order))
      returned (ok t) (a, h) = (
        a.sound.ordered,
        a.sound.needed,
        subst (λ names. all (met (new_index packages) skip names) roots ≡ true) a.sound.synced h,
      )
      returned (formula_not_found name) h = h
      returned (circular name) h = h
      returned exhausted h = h

  -- The rank of a needed package is above those of the packages that it depends on.
  abbrev pub IsRanked : (Text → ℕ) → Type 0
  IsRanked rank =
      (pkg : PackageMetadata) (dep : Text) (next : PackageMetadata)
      → IsNeeded (new_index packages) skip roots pkg
      → depends_on pkg dep ≡ true
      → skip dep ≡ false
      → find (new_index packages) dep ≡ some next
      → rank next.name < rank pkg.name

  Leads-falls :
      (rank : Text → ℕ)
      → IsRanked rank
      → {pkg : PackageMetadata} {name : Text} (next : PackageMetadata)
      → IsNeeded (new_index packages) skip roots pkg
      → Leads (new_index packages) skip pkg name
      → skip name ≡ false
      → find (new_index packages) name ≡ some next
      → rank next.name < rank pkg.name
  Leads-falls rank r {pkg} {name} next n (direct on) kept found = r pkg name next n on kept found
  Leads-falls rank r {pkg} {name} next n (through {name = via} {next = mid} l k f on) kept found =
      let here : IsNeeded (new_index packages) skip roots mid =
        (via, Leads-Needed (new_index packages) skip n l, k, f) in
      omega (arith, Leads-falls rank r mid n l k f, r mid name next here on kept found)

  not-IsCircular :
      (rank : Text → ℕ)
      → IsRanked rank
      → {name : Text} → ¬ (IsCircular (new_index packages) skip roots name)
  not-IsCircular rank r (pkg, last, found, named, n, leads, kept, is_found, same) =
      omega (arith, Leads-falls rank r found n leads kept is_found, ap rank (named ∙ sym same))

  -- If every name that the roots need is found, and the packages can be ranked so that each ranks above
  -- those that it depends on, an order is returned.
  pub resolve_succeeds :
      (rank : Text → ℕ)
      → IsRanked rank
      → ((name : Text)
          → Needed (new_index packages) skip roots name
          → skip name ≡ false
          → find (new_index packages) name ≢ none)
      → (order : List PackageMetadata) × (resolve (new_index packages) skip roots ≡ ok order)
  resolve_succeeds rank r there =
      returned (resolve (new_index packages) skip roots) resolve-IsResolved
    where
      returned :
          (m : Outcome (List PackageMetadata))
          → IsResolved m
          → (order : List PackageMetadata) × (m ≡ ok order)
      returned (ok order) h = (order, refl)
      returned (formula_not_found name) (n, kept, missing) = absurd (there name n kept missing)
      returned (circular name) h = absurd (not-IsCircular rank r h)
      returned exhausted h = absurd h
