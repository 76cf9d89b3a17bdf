-- ===== src/Oil/Extract/Confined.antt =====
-- What the parts of an extraction do stays in the directory.
use alpenglow.Prelude.{
  Text, Bool, true, false, ◌≡◌, refl, sym, ap, ◌∙◌, Option, none, some, List, [], ◌∷◌, ◌++◌,
  if◌then◌else◌, ◌||◌, ◌&&◌, all, arith, Bool-cases, Option-cases, inl, inr, append-nil,
  append_assoc, all-append,
}
use mathlib.Core.Option.{some-injective}
use alpenglow.Oil.FilePath.{
  Component, root_dir, cur_dir, parent_dir, normal, Components, components, same_component,
  starts_with, pop,
}
use alpenglow.Oil.Extract.{
  is_safe_symlink, EntryKind, directory, symlink, hard_link, regular, other_kind, DiskCall,
  create_dir_all, remove_file, remove_dir_all, unpack, make_symlink, Extraction, Extracted, done,
  stopped, ◌>>=◌, is_created, call, try_call, ensure_parent, process_dir, process_symlink,
  process_file, process_kind, ensure_parent_of,
}
use alpenglow.Oil.Extract.Walk.{is_normal, pop-snoc, snoc-cases, same_component_refl}

-- The directory itself, or what is reached from it by names alone: no part of the path behind the
-- directory is the root, `.` or `..`.
abbrev pub inside : Components → Components → Bool
inside [] path = all is_normal path
inside (d ∷ dir) [] = false
inside (d ∷ dir) (c ∷ path) = same_component c d && inside dir path

-- A call that leaves what is outside of the directory as it is. To make the directories above it, which
-- the extraction has made, changes nothing.
abbrev pub is_confined : Components → DiskCall → Bool
is_confined dir (create_dir_all path) = inside dir path || starts_with dir path
is_confined dir (remove_file path) = inside dir path
is_confined dir (remove_dir_all path) = inside dir path
is_confined dir (unpack path) = inside dir path
is_confined dir (make_symlink target path) =
    inside dir path && is_safe_symlink (components target) path dir

abbrev pub IsConfined : Components → Extraction → Type 0
IsConfined dir s =
    (all (is_confined dir) s.calls && (all (inside dir) s.files && all (inside dir) s.dirs)) ≡ true

-- The property of a run, whether it is done or stopped.
abbrev pub Confines : Components → Extracted → Type 0
Confines dir (done s) = IsConfined dir s
Confines dir (stopped _ s) = IsConfined dir s

starts_with-pop :
    (path : Components) {up : Components} → pop path ≡ some up → starts_with path up ≡ true
unfolding pop starts_with
starts_with-pop [] h = cc
starts_with-pop (root_dir ∷ []) h = cc
starts_with-pop (cur_dir ∷ []) h = ap (starts_with (cur_dir ∷ [])) (sym (some-injective _ _ h))
starts_with-pop (parent_dir ∷ []) h =
    ap (starts_with (parent_dir ∷ [])) (sym (some-injective _ _ h))
starts_with-pop (normal n ∷ []) h = ap (starts_with (normal n ∷ [])) (sym (some-injective _ _ h))
starts_with-pop (c ∷ d ∷ path) {up} h = elim (Option-cases (pop (d ∷ path))) [
  | inl e ↦ cc (rw e at h)
  | inr (rest, e) ↦
      ap (starts_with (c ∷ d ∷ path)) (sym (some-injective _ _ (rw e at h)))
      ∙ rw (same_component_refl c, starts_with-pop (d ∷ path) e) refl
]

-- A name that is put after a path is what `pop` takes.
pop-snoc_name :
    (path : Components) (last : Component) {up : Components}
    → all is_normal (last ∷ []) ≡ true
    → pop (path ++ last ∷ []) ≡ some up
    → path ≡ up
pop-snoc_name path (normal name) h e = some-injective _ _ (sym (pop-snoc path name) ∙ e)
pop-snoc_name path root_dir h e = cc
pop-snoc_name path cur_dir h e = cc
pop-snoc_name path parent_dir h e = cc

pub inside-append : (dir names : Components) → inside dir (dir ++ names) ≡ all is_normal names
inside-append [] names = refl
inside-append (d ∷ dir) names = rw (same_component_refl d) (inside-append dir names)

pub inside_refl : (dir : Components) → inside dir dir ≡ true
inside_refl dir = ap (inside dir) (sym (append-nil dir)) ∙ inside-append dir []

-- The parent of what lies in the directory lies in it, or is above it.
parent-confined :
    (dir names : Components) {up : Components}
    → all is_normal names ≡ true
    → pop (dir ++ names) ≡ some up
    → (inside dir up || starts_with dir up) ≡ true
parent-confined dir names {up} h e = elim (snoc-cases names) [
  | inl empty ↦
      rw (starts_with-pop dir (ap pop (sym (ap (λ n. dir ++ n) empty ∙ append-nil dir)) ∙ e))
        (ground arith)
  | inr (rest, last, is_snoc) ↦
      let parts : (all is_normal rest && all is_normal (last ∷ [])) ≡ true =
        sym (all-append is_normal rest (last ∷ [])) ∙ ap (all is_normal) (sym is_snoc) ∙ h in
      let normal_rest : all is_normal rest ≡ true = ground arith in
      let above : dir ++ rest ≡ up =
        pop-snoc_name (dir ++ rest) last (ground arith)
          (ap pop (append_assoc dir rest (last ∷ []) ∙ ap (λ n. dir ++ n) (sym is_snoc)) ∙ e) in
      rw (sym above, inside-append dir rest, normal_rest) refl
]

module _ (works : List DiskCall → DiskCall → Bool) (dir : Components) where
  pub after->>= :
      (r : Extracted) (k : Extraction → Extracted)
      → Confines dir r
      → ((s : Extraction) → IsConfined dir s → Confines dir (k s))
      → Confines dir (r >>= k)
  after->>= (done s) k h step = step s h
  after->>= (stopped e s) k h step = h

  pub after_call :
      (c : DiskCall) (s : Extraction)
      → is_confined dir c ≡ true
      → IsConfined dir s
      → Confines dir (call works c s)
  unfolding call
  after_call c s h i = elim (Bool-cases (works s.calls c)) [
    | inl success ↦ rw success (rw h i)
    | inr failure ↦ rw failure (rw h i)
  ]

  after_ensure :
      (parent : Components) (s : Extraction)
      → (inside dir parent || starts_with dir parent) ≡ true
      → IsConfined dir s
      → Confines dir (ensure_parent works parent s)
  unfolding ensure_parent
  after_ensure parent s h i = elim (Bool-cases (is_created s.created_dirs parent)) [
    | inl created ↦ rw created i
    | inr absent ↦ rw absent (
        after->>= (call works (create_dir_all parent) s) _
          (after_call (create_dir_all parent) s h i) (λ t j. j))
  ]

  after_dir :
      (dest : Components) (s : Extraction)
      → inside dir dest ≡ true
      → IsConfined dir s
      → Confines dir (process_dir works dest s)
  unfolding process_dir
  after_dir dest s h i =
      let made : Confines dir (
          if is_created s.created_dirs dest
          then done s
          else call works (create_dir_all dest) s >>= λ t.
              done (record t { created_dirs = dest ∷ t.created_dirs })) =
        elim (Bool-cases (is_created s.created_dirs dest)) [
          | inl created ↦ rw created i
          | inr absent ↦ rw absent (
              after->>= (call works (create_dir_all dest) s) _
                (after_call (create_dir_all dest) s (rw h refl) i) (λ t j. j))
        ] in
      after->>= _ _ made (λ t j. ground arith)

  after_file :
      (dest : Components) (s : Extraction)
      → inside dir dest ≡ true
      → IsConfined dir s
      → Confines dir (process_file works dest s)
  unfolding process_file
  after_file dest s h i =
      after->>= (call works (unpack dest) s) _ (after_call (unpack dest) s h i)
        (λ t j. ground arith)

  after_symlink :
      (link_name : Option Text) (dest : Components) (s : Extraction)
      → inside dir dest ≡ true
      → IsConfined dir s
      → Confines dir (process_symlink works dir link_name dest s)
  unfolding process_symlink try_call
  after_symlink none dest s h i = i
  after_symlink (some target) dest s h i =
      elim (Bool-cases (is_safe_symlink (components target) dest dir)) [
        | inl safe ↦ rw safe (
            after->>=
              (call works (make_symlink target dest)
                (try_call works (remove_dir_all dest) (try_call works (remove_file dest) s)))
              _ (after_call (make_symlink target dest) _ (rw (h, safe) refl) (rw h i))
              (λ t j. ground arith))
        | inr unsafe ↦ rw unsafe i
      ]

  pub after_kind :
      (kind : EntryKind) (link_name : Option Text) (dest : Components) (s : Extraction)
      → inside dir dest ≡ true
      → IsConfined dir s
      → Confines dir (process_kind works dir kind link_name dest s)
  unfolding process_kind
  after_kind directory link_name dest s h i = after_dir dest s h i
  after_kind symlink link_name dest s h i = after_symlink link_name dest s h i
  after_kind hard_link link_name dest s h i = i
  after_kind regular link_name dest s h i = after_file dest s h i
  after_kind other_kind link_name dest s h i = i

  pub after_parent :
      (names : Components) (parent : Option Components) (s : Extraction)
      → all is_normal names ≡ true
      → pop (dir ++ names) ≡ parent
      → IsConfined dir s
      → Confines dir (ensure_parent_of works parent s)
  after_parent names none s h e i = i
  after_parent names (some up) s h e i = after_ensure up s (parent-confined dir names h e) i
