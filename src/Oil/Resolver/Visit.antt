-- ===== src/Oil/Resolver/Visit.antt =====
-- What a search for the dependencies of a name does to its three collections, and what each of its
-- errors says.
use alpenglow.Prelude.{
  ℕ, zero, suc, ◌<◌, Text, Bool, true, false, ◌≡◌, refl, ap, sym, ◌∙◌, some, none, List, [], ◌∷◌,
  any, all, All, text_eq, text_eq_iff, arith, Bool-cases, inl, inr, Option-cases, All-snoc,
}
use mathlib.Core.Path.{subst}
use alpenglow.Oil.Package.{PackageMetadata, PackageIndex, find, new_index, parse_dep_name}
use alpenglow.Oil.Package.Find.{find-eq-find_package, find_package-free_falls}
use alpenglow.Oil.Resolver.{
  Outcome, ok, formula_not_found, circular, exhausted, ◌>>=◌, Search, visit_named, visit_deps,
  visit_package, visit, enter, leave,
}
use alpenglow.Oil.Resolver.Sets.{
  contains, remove, contains-cons, contains_self, text_eq_refl, text_eq_of_contains, remove-cons,
  free,
}
use alpenglow.Oil.Resolver.Order.{
  depends_on, Within, names_after, names_after_snoc, met, met_named, met_named_mono, met_dep,
  is_ordered, is_ordered_snoc, Needed, dependency, IsNeeded, Leads, direct, through, IsCircular,
}

-- Membership is by the names of dependencies.
All-of_member :
    {P : Text → Type 0} (deps : List Text)
    → ((dep : Text)
        → any (λ d. text_eq (parse_dep_name dep) (parse_dep_name d)) deps ≡ true
        → P dep)
    → All P deps
All-of_member [] f = tt
All-of_member (dep ∷ deps) f = (
  f dep (rw (text_eq_refl (parse_dep_name dep)) refl),
  All-of_member deps (λ d h. f d (ground arith)),
)

module _ (packages : List PackageMetadata) (skip : Text → Bool) (roots : List Text) where
  abbrev pub index : PackageIndex
  index = new_index packages

  pub record IsSound (s : Search) : Type 0 where
    pub ordered : is_ordered index skip [] s.order ≡ true
    pub synced : s.scheduled ≡ names_after [] s.order
    pub needed : All (IsNeeded index skip roots) s.order

  -- The names that are being visited lead to the name that is visited next.
  abbrev pub Trails : List Text → Text → Type 0
  Trails visiting name =
      (x : Text)
      → contains visiting x ≡ true
      → (pkg : PackageMetadata) × (pkg.name ≡ x)
        × IsNeeded index skip roots pkg
        × Leads index skip pkg name

  pub record Advances (s t : Search) : Type 0 where
    pub sound : IsSound t
    pub grows : Within s.scheduled t.scheduled
    -- what is being visited is not scheduled meanwhile
    pub keeps :
        (x : Text) → contains s.visiting x ≡ true → contains t.scheduled x ≡ contains s.scheduled x
    pub visiting : t.visiting ≡ s.visiting

  -- What the search of `P` comes to: a state that is as `P` says, a name that is needed and not
  -- there, or a name in a circle.
  abbrev pub Explains : (Search → Type 0) → Outcome Search → Type 0
  Explains P (ok t) = P t
  Explains P (formula_not_found name) =
      Needed index skip roots name × (skip name ≡ false) × (find index name ≡ none)
  Explains P (circular name) = IsCircular index skip roots name
  Explains P exhausted = ⊥

  pub Explains->>= :
      (P Q : Search → Type 0) (m : Outcome Search) (k : Search → Outcome Search)
      → Explains P m
      → ((t : Search) → P t → Explains Q (k t))
      → Explains Q (m >>= k)
  Explains->>= P Q (ok t) k h f = f t h
  Explains->>= P Q (formula_not_found name) k h f = h
  Explains->>= P Q (circular name) k h f = h
  Explains->>= P Q exhausted k h f = absurd h

  pub Explains-map :
      (P Q : Search → Type 0) (m : Outcome Search)
      → Explains P m
      → ((t : Search) → P t → Q t)
      → Explains Q m
  Explains-map P Q (ok t) h f = f t h
  Explains-map P Q (formula_not_found name) h f = h
  Explains-map P Q (circular name) h f = h
  Explains-map P Q exhausted h f = h

  -- What a visit of a name promises.
  abbrev pub Visits : Search → Text → Search → Type 0
  Visits s name t = Advances s t × (met index skip t.scheduled name ≡ true)

  abbrev pub IsVisit : (Text → Search → Outcome Search) → ℕ → Type 0
  IsVisit f bound =
      (name : Text) (s : Search)
      → free s.visiting packages < bound
      → IsSound s
      → Needed index skip roots name
      → Trails s.visiting name
      → Explains (Visits s name) (f name s)

  pub Advances-refl : (s : Search) → IsSound s → Advances s s
  Advances-refl s v = record { sound = v; grows = λ x h. h; keeps = λ x h. refl; visiting = refl }

  pub Advances-trans : (s t u : Search) → Advances s t → Advances t u → Advances s u
  Advances-trans s t u a b = record {
    sound = b.sound;
    grows = λ x h. b.grows x (a.grows x h);
    keeps = λ x h. b.keeps x (rw (a.visiting) h) ∙ a.keeps x h;
    visiting = b.visiting ∙ a.visiting;
  }

  abbrev pub VisitsAll : Search → List Text → Search → Type 0
  VisitsAll s deps t = Advances s t × (all (met_dep index skip t.scheduled) deps ≡ true)

  visit_named-Visits :
      (f : Text → Search → Outcome Search) (bound : ℕ)
      → IsVisit f bound
      → (name : Text) (s : Search) → free s.visiting packages < bound
      → IsSound s
      → Needed index skip roots name
      → Trails s.visiting name
      → Explains
          (λ t. Advances s t × (met_named index skip t.scheduled name ≡ true))
          (visit_named f name s)
  visit_named-Visits f bound v [] s b h n t = (Advances-refl s h, refl)
  visit_named-Visits f bound v (c ∷ name) s b h n t = v (c ∷ name) s b h n t

  -- The dependencies `deps` of a package that is being visited.
  visit_deps-VisitsAll :
      (f : Text → Search → Outcome Search) (bound : ℕ)
      → IsVisit f bound
      → (deps : List Text) (s : Search) → free s.visiting packages < bound
      → IsSound s
      → All
          (λ dep.
            Needed index skip roots (parse_dep_name dep) × Trails s.visiting (parse_dep_name dep))
          deps
      → Explains (VisitsAll s deps) (visit_deps f deps s)
  unfolding visit_deps
  visit_deps-VisitsAll f bound v [] s b h d = (Advances-refl s h, refl)
  visit_deps-VisitsAll f bound v (dep ∷ deps) s b h (here, rest) =
      Explains->>= _ _ (visit_named f (parse_dep_name dep) s) (visit_deps f deps)
        (visit_named-Visits f bound v (parse_dep_name dep) s b h here.0 here.1)
        λ t p.
          Explains-map _ _ (visit_deps f deps t)
            (visit_deps-VisitsAll f bound v deps t
              (subst (λ names. free names packages < bound) (sym p.0.visiting) b) p.0.sound
              (subst
                (λ names.
                  All
                    (λ dep'.
                      Needed index skip roots (parse_dep_name dep')
                      × Trails names (parse_dep_name dep'))
                    deps)
                (sym p.0.visiting) rest))
            λ u q. (
              Advances-trans s t u p.0 q.0,
              rw
                  (
                    met_named_mono index skip t.scheduled u.scheduled (parse_dep_name dep) q.0.grows
                        p.1,
                    q.1,
                  )
                  refl,
            )

  -- The collections after a package whose dependencies are all scheduled.
  leave-Advances :
      (pkg : PackageMetadata) (s t : Search)
      → contains s.scheduled pkg.name ≡ false
      → contains s.visiting pkg.name ≡ false
      → IsNeeded index skip roots pkg
      → VisitsAll (enter pkg s) pkg.depends t
      → Advances s (leave pkg t)
  leave-Advances pkg s t unscheduled unvisited n (a, met_all) = record {
    sound = record {
      ordered =
          is_ordered_snoc index skip [] t.order pkg a.sound.ordered
            (subst (λ names. contains names pkg.name ≡ false) a.sound.synced
              (a.keeps pkg.name (contains_self pkg.name s.visiting) ∙ unscheduled))
            (subst (λ names. all (met_dep index skip names) pkg.depends ≡ true) a.sound.synced
              met_all);
      synced =
          ap (λ names. pkg.name ∷ names) a.sound.synced ∙ sym (names_after_snoc [] t.order pkg);
      needed = All-snoc (IsNeeded index skip roots) t.order pkg a.sound.needed n;
    };
    grows = λ x h. ground (arith, contains-cons pkg.name t.scheduled x, a.grows x);
    keeps = λ x h. ground (
      arith,
      contains-cons pkg.name t.scheduled x,
      contains-cons pkg.name s.visiting x,
      text_eq_of_contains s.visiting x pkg.name,
      a.keeps x,
    );
    visiting = ap (remove pkg.name) a.visiting ∙ remove-cons pkg.name s.visiting unvisited;
  }

  -- The names that are being visited and the package itself lead to its dependencies.
  deps-Trails :
      (name : Text) (pkg : PackageMetadata) (s : Search)
      → Needed index skip roots name
      → Trails s.visiting name
      → skip name ≡ false
      → find index name ≡ some pkg
      → (dep : Text) → depends_on pkg (parse_dep_name dep) ≡ true
      → Needed index skip roots (parse_dep_name dep)
        × Trails (pkg.name ∷ s.visiting) (parse_dep_name dep)
  deps-Trails name pkg s n t kept found dep on = (dependency n kept found on, trail)
    where
      longer :
          (x : Text)
          → (p : PackageMetadata) × (p.name ≡ x)
            × IsNeeded index skip roots p
            × Leads index skip p name
          → (p : PackageMetadata) × (p.name ≡ x)
            × IsNeeded index skip roots p
            × Leads index skip p (parse_dep_name dep)
      longer x (p, named, needed, leads) = (p, named, needed, through leads kept found on)

      trail : Trails (pkg.name ∷ s.visiting) (parse_dep_name dep)
      trail x h = elim (Bool-cases (text_eq x pkg.name)) [
        | inl same ↦ (pkg, sym ((text_eq_iff x pkg.name).0 same), (name, n, kept, found), direct on)
        | inr other ↦ longer x (t x (ground (arith, contains-cons pkg.name s.visiting x)))
      ]

  visit_package-Visits :
      (f : Text → Search → Outcome Search) (bound : ℕ)
      → IsVisit f bound
      → (name : Text) (pkg : PackageMetadata) (s : Search) → free s.visiting packages < suc bound
      → IsSound s
      → Needed index skip roots name
      → Trails s.visiting name
      → skip name ≡ false
      → find index name ≡ some pkg
      → Explains
          (λ t. Advances s t × (contains t.scheduled pkg.name ≡ true))
          (visit_package (visit_deps f) pkg s)
  unfolding visit_package
  visit_package-Visits f bound v name pkg s b h n t kept found =
      elim (Bool-cases (contains s.scheduled pkg.name)) [
        | inl scheduled ↦ rw scheduled (Advances-refl s h, scheduled)
        | inr unscheduled ↦ elim (Bool-cases (contains s.visiting pkg.name)) [
          | inl visited ↦ rw (unscheduled, visited) (closed (t pkg.name visited))
          | inr unvisited ↦
              rw (unscheduled, unvisited)
                (Explains->>= _ _ (visit_deps f pkg.depends (enter pkg s)) (λ u. ok (leave pkg u))
                  (visit_deps-VisitsAll f bound v pkg.depends (enter pkg s)
                    (omega (arith, falls unvisited))
                    (record { ordered = h.ordered; synced = h.synced; needed = h.needed })
                    (All-of_member pkg.depends (deps-Trails name pkg s n t kept found)))
                  (λ u q. (
                    leave-Advances pkg s u unscheduled unvisited (name, n, kept, found) q,
                    contains_self pkg.name u.scheduled,
                  )))
        ]
      ]
    where
      closed :
          (p : PackageMetadata) × (p.name ≡ pkg.name)
            × IsNeeded index skip roots p
            × Leads index skip p name
          → IsCircular index skip roots pkg.name
      closed (p, named, needed, leads) = (p, name, pkg, named, needed, leads, kept, found, refl)

      falls :
          contains s.visiting pkg.name ≡ false
          → free (pkg.name ∷ s.visiting) packages < free s.visiting packages
      falls =
          find_package-free_falls s.visiting packages name pkg
            (sym (find-eq-find_package packages name) ∙ found)

  pub visit-IsVisit : (fuel : ℕ) → IsVisit (visit index skip fuel) fuel
  unfolding visit
  visit-IsVisit zero name s b h n t = absurd (omega arith)
  visit-IsVisit (suc fuel) name s b h n t = elim (Bool-cases (skip name)) [
    | inl skipped ↦ rw skipped (Advances-refl s h, rw skipped refl)
    | inr kept ↦ elim (Option-cases (find index name)) [
      | inl missing ↦ rw (kept, missing) (n, kept, missing)
      | inr (pkg, found) ↦
          rw (kept, found)
            (Explains-map _ _ (visit_package (visit_deps (visit index skip fuel)) pkg s)
              (visit_package-Visits (visit index skip fuel) fuel (visit-IsVisit fuel) name pkg s b h
                n t kept found)
              (λ u q. (q.0, rw (kept, found) (q.1))))
    ]
  ]
