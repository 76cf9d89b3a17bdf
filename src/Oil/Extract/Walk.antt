-- ===== src/Oil/Extract/Walk.antt =====
-- `is_safe_symlink`, without the walk.
use alpenglow.Prelude.{
  ℕ, zero, suc, ◌≤◌, Text, Bool, true, false, not, ◌≡◌, ◌⊎◌, refl, sym, ap, ◌∙◌, some, [], ◌∷◌,
  ◌++◌, if◌then◌else◌, ◌&&◌, all, arith, Bool-cases, Option-cases, inl, inr, append_assoc,
  append-nil, all-append, text_eq_iff, length,
}
use mathlib.Core.Option.{some-injective}
use mathlib.Core.Path.{subst}
use alpenglow.Oil.FilePath.{
  Component, root_dir, cur_dir, parent_dir, normal, Components, same_component, starts_with, pop,
}
use alpenglow.Oil.Extract.{is_absolute, walk, is_safe_symlink}

abbrev pub is_normal : Component → Bool
is_normal (normal _) = true
is_normal root_dir = false
is_normal cur_dir = false
is_normal parent_dir = false

-- The target, taken from `depth` directories below, never goes above: each `..` has a directory to
-- leave.
pub stays : ℕ → Components → Bool
stays depth [] = true
stays zero (parent_dir ∷ target) = false
stays (suc depth) (parent_dir ∷ target) = stays depth target
stays depth (normal _ ∷ target) = stays (suc depth) target
stays depth (root_dir ∷ target) = stays depth target
stays depth (cur_dir ∷ target) = stays depth target

pub pop-snoc : (path : Components) (name : Text) → pop (path ++ normal name ∷ []) ≡ some path
unfolding pop
pop-snoc [] name = refl
pop-snoc (root_dir ∷ []) name = refl
pop-snoc (cur_dir ∷ []) name = refl
pop-snoc (parent_dir ∷ []) name = refl
pop-snoc (normal _ ∷ []) name = refl
pop-snoc (c ∷ d ∷ path) name = rw (pop-snoc (d ∷ path) name) refl

pub length-pop :
    (path : Components) {up : Components} → pop path ≡ some up → length path ≡ suc (length up)
unfolding pop
length-pop [] h = cc
length-pop (root_dir ∷ []) h = cc
length-pop (cur_dir ∷ []) h = ground arith
length-pop (parent_dir ∷ []) h = ground arith
length-pop (normal _ ∷ []) h = ground arith
length-pop (c ∷ d ∷ path) {up} h = elim (Option-cases (pop (d ∷ path))) [
  | inl e ↦ cc (rw e at h)
  | inr (rest, e) ↦
      let up_is : c ∷ rest ≡ up = some-injective _ _ (rw e at h) in
      omega (arith, length-pop (d ∷ path) e, ap length up_is)
]

length-le-starts_with :
    (path prefix : Components) → starts_with path prefix ≡ true → length prefix ≤ length path
unfolding starts_with
length-le-starts_with path [] h = omega arith
length-le-starts_with [] (d ∷ prefix) h = cc
length-le-starts_with (c ∷ path) (d ∷ prefix) h =
    omega (arith, length-le-starts_with path prefix (ground arith))

pub same_component_refl : (c : Component) → same_component c c ≡ true
same_component_refl root_dir = refl
same_component_refl cur_dir = refl
same_component_refl parent_dir = refl
same_component_refl (normal name) = (text_eq_iff name name).1 refl

pub starts_with-append : (path rest : Components) → starts_with (path ++ rest) path ≡ true
unfolding starts_with
starts_with-append [] rest = refl
starts_with-append (c ∷ path) rest = rw (same_component_refl c, starts_with-append path rest) refl

pub starts_with_refl : (path : Components) → starts_with path path ≡ true
starts_with_refl path =
    ap (λ p. starts_with p path) (sym (append-nil path)) ∙ starts_with-append path []

pub snoc-cases :
    (path : Components)
    → (path ≡ []) ⊎ ((rest : Components) × (last : Component) × (path ≡ rest ++ last ∷ []))
snoc-cases [] = inl refl
snoc-cases (c ∷ path) = elim (snoc-cases path) [
  | inl e ↦ inr ([], c, ap (λ p. c ∷ p) e)
  | inr (rest, last, e) ↦ inr (c ∷ rest, last, ap (λ p. c ∷ p) e)
]

-- What is above the directory does not begin with it.
above : (dir : Components) {up : Components} → pop dir ≡ some up → starts_with up dir ≡ false
above dir {up} h = elim (Bool-cases (starts_with up dir)) [
  | inl inside ↦ absurd (omega (arith, length-pop dir h, length-le-starts_with up dir inside))
  | inr outside ↦ outside
]

length-append_one :
    (path : Components) (c : Component) → length (path ++ c ∷ []) ≡ suc (length path)
length-append_one [] c = refl
length-append_one (d ∷ path) c = ap suc (length-append_one path c)

module _ (dir : Components) where
  walk_out : (target : Components) → walk dir (parent_dir ∷ target) (dir ++ []) ≡ false
  unfolding walk
  walk_out target = elim (Option-cases (pop dir)) [
    | inl none_left ↦ rw (append-nil dir, none_left, walk) refl
    | inr (up, e) ↦ rw (append-nil dir, e, above dir e, walk) refl
  ]

  walk_up :
      (target d : Components) (last : Component)
      → is_normal last ≡ true
      → walk dir (parent_dir ∷ target) (dir ++ (d ++ last ∷ [])) ≡ walk dir target (dir ++ d)
  unfolding walk
  walk_up target d (normal name) h =
      rw
        (
          sym (append_assoc dir d (normal name ∷ [])),
          pop-snoc (dir ++ d) name,
          starts_with-append dir d,
          walk,
        )
        refl
  walk_up target d root_dir h = cc
  walk_up target d cur_dir h = cc
  walk_up target d parent_dir h = cc

  -- Some directories below, the walk is the count of them.
  pub walk-eq-stays :
      (target d : Components)
      → all is_normal d ≡ true
      → walk dir target (dir ++ d) ≡ stays (length d) target
  unfolding walk stays
  walk-eq-stays [] d h = starts_with-append dir d
  walk-eq-stays (root_dir ∷ target) d h = walk-eq-stays target d h
  walk-eq-stays (cur_dir ∷ target) d h = walk-eq-stays target d h
  walk-eq-stays (normal name ∷ target) d h =
      ap (walk dir target) (append_assoc dir d (normal name ∷ []))
      ∙ walk-eq-stays target (d ++ normal name ∷ [])
          (all-append is_normal d (normal name ∷ []) ∙ rw h refl)
      ∙ ap (λ n. stays n target) (length-append_one d (normal name))
  walk-eq-stays (parent_dir ∷ target) d h = elim (snoc-cases d) [
    | inl e ↦
        subst
          (λ p. walk dir (parent_dir ∷ target) (dir ++ p) ≡ stays (length p) (parent_dir ∷ target))
          (sym e) (walk_out target)
    | inr (rest, last, e) ↦
        let parts : (all is_normal rest && (is_normal last && true)) ≡ true =
          sym (all-append is_normal rest (last ∷ [])) ∙ ap (all is_normal) (sym e) ∙ h in
        subst
          (λ p. walk dir (parent_dir ∷ target) (dir ++ p) ≡ stays (length p) (parent_dir ∷ target))
          (sym e)
          (walk_up target rest last (ground arith)
            ∙ walk-eq-stays target rest (ground arith)
            ∙ ap (λ n. stays n (parent_dir ∷ target)) (sym (length-append_one rest last)))
  ]

  -- From a file that lies some directories below, a target is safe exactly if it is relative and never
  -- goes above.
  pub is_safe_symlink-eq-stays :
      (target d : Components) (name : Text)
      → all is_normal d ≡ true
      → is_safe_symlink target ((dir ++ d) ++ normal name ∷ []) dir
        ≡ (not (is_absolute target) && stays (length d) target)
  unfolding is_safe_symlink
  is_safe_symlink-eq-stays target d name h =
      rw (pop-snoc (dir ++ d) name, walk-eq-stays target d h)
        (relative (is_absolute target) (stays (length d) target))
    where
      relative : (a b : Bool) → (if a then false else b) ≡ (not a && b)
      relative true b = refl
      relative false b = refl
