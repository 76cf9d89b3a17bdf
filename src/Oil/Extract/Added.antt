-- ===== src/Oil/Extract/Added.antt =====
-- What the parts of an extraction add to its lists.
use alpenglow.Prelude.{
  Text, Bool, ◌≡◌, refl, sym, ap, ◌∙◌, Option, none, some, List, [], ◌∷◌, ◌++◌, if◌then◌else◌,
  append_assoc, append-nil, Bool-cases, inl, inr,
}
use mathlib.Core.Path.{subst}
use alpenglow.Oil.FilePath.{Components, components, join}
use alpenglow.Oil.Extract.{
  is_safe_symlink, strip_entry, is_skipped, EntryKind, directory, symlink, hard_link, regular,
  other_kind, Entry, DiskCall, create_dir_all, remove_file, remove_dir_all, unpack, make_symlink,
  Extraction, Extracted, done, stopped, ◌>>=◌, is_created, call, try_call, ensure_parent,
  process_dir, process_symlink, process_file, process_kind, ensure_parent_of,
}

-- The file and the directory that an entry of a kind adds to the lists.
abbrev pub file_of_kind : EntryKind → Option Text → Components → List Components
file_of_kind directory link_name dest = []
file_of_kind symlink none dest = []
file_of_kind symlink (some _) dest = dest ∷ []
file_of_kind hard_link link_name dest = []
file_of_kind regular link_name dest = dest ∷ []
file_of_kind other_kind link_name dest = []

abbrev pub dir_of_kind : EntryKind → Components → List Components
dir_of_kind directory dest = dest ∷ []
dir_of_kind symlink dest = []
dir_of_kind hard_link dest = []
dir_of_kind regular dest = []
dir_of_kind other_kind dest = []

abbrev pub dest_of : Text → Entry → Components
dest_of dest_dir entry = components (join dest_dir (strip_entry entry.path))

abbrev pub file_of : Text → Entry → List Components
file_of dest_dir entry =
    if is_skipped entry.path
    then []
    else file_of_kind entry.kind entry.link_name (dest_of dest_dir entry)

abbrev pub dir_of : Text → Entry → List Components
dir_of dest_dir entry =
    if is_skipped entry.path then [] else dir_of_kind entry.kind (dest_of dest_dir entry)

-- Of all the entries, the last first.
abbrev pub files_of : Text → List Entry → List Components
files_of dest_dir [] = []
files_of dest_dir (entry ∷ entries) = files_of dest_dir entries ++ file_of dest_dir entry

abbrev pub dirs_of : Text → List Entry → List Components
dirs_of dest_dir [] = []
dirs_of dest_dir (entry ∷ entries) = dirs_of dest_dir entries ++ dir_of dest_dir entry

-- What the calls have put in the place of a file.
abbrev pub written : List DiskCall → List Components
written [] = []
written (create_dir_all path ∷ calls) = written calls
written (remove_file path ∷ calls) = written calls
written (remove_dir_all path ∷ calls) = written calls
written (unpack path ∷ calls) = path ∷ written calls
written (make_symlink target path ∷ calls) = path ∷ written calls

-- A run that is done has added these to the files, the directories and the written.
abbrev pub Adds : List Components → List Components → Extraction → Extracted → Type 0
Adds fs ds s (done t) =
    (t.files ≡ fs ++ s.files) × (t.dirs ≡ ds ++ s.dirs) × (written t.calls ≡ fs ++ written s.calls)
Adds fs ds s (stopped e t) = Unit

append-after :
    (gs fs : List Components) {xs ys : List Components} (zs : List Components)
    → xs ≡ gs ++ ys
    → ys ≡ fs ++ zs
    → xs ≡ (gs ++ fs) ++ zs
append-after gs fs zs e f = e ∙ ap (λ l. gs ++ l) f ∙ sym (append_assoc gs fs zs)

Adds-after :
    (fs ds gs es : List Components) (s t : Extraction) (r : Extracted)
    → Adds fs ds s (done t)
    → Adds gs es t r
    → Adds (gs ++ fs) (es ++ ds) s r
Adds-after fs ds gs es s t (done u) (f, d, w) (g, e, v) =
    (append-after gs fs _ g f, append-after es ds _ e d, append-after gs fs _ v w)
Adds-after fs ds gs es s t (stopped e u) a b = tt

pub Adds->>= :
    (fs ds gs es : List Components) (s : Extraction) (r : Extracted) (k : Extraction → Extracted)
    → Adds fs ds s r
    → ((t : Extraction) → Adds gs es t (k t))
    → Adds (gs ++ fs) (es ++ ds) s (r >>= k)
Adds->>= fs ds gs es s (done t) k a h = Adds-after fs ds gs es s t (k t) a (h t)
Adds->>= fs ds gs es s (stopped e t) k a h = tt

pub Adds-from_none :
    (fs ds : List Components) (s : Extraction) (r : Extracted) (k : Extraction → Extracted)
    → Adds [] [] s r
    → ((t : Extraction) → Adds fs ds t (k t))
    → Adds fs ds s (r >>= k)
Adds-from_none fs ds s r k a h =
    subst (λ l. Adds l ds s (r >>= k)) (append-nil fs)
      (subst (λ l. Adds (fs ++ []) l s (r >>= k)) (append-nil ds) (Adds->>= [] [] fs ds s r k a h))

module _ (works : List DiskCall → DiskCall → Bool) where
  Adds-call :
      (fs ds : List Components) (c : DiskCall) (s : Extraction) (k : Extraction → Extracted)
      → Adds fs ds s (k (record s { calls = c ∷ s.calls }))
      → Adds fs ds s (call works c s >>= k)
  unfolding call
  Adds-call fs ds c s k h = elim (Bool-cases (works s.calls c)) [
    | inl success ↦ rw success h
    | inr failure ↦ rw failure tt
  ]

  Adds-dir : (dest : Components) (s : Extraction) → Adds [] (dest ∷ []) s (process_dir works dest s)
  unfolding process_dir call
  Adds-dir dest s = elim (Bool-cases (is_created s.created_dirs dest)) [
    | inl created ↦ rw created (refl, refl, refl)
    | inr absent ↦ elim (Bool-cases (works s.calls (create_dir_all dest))) [
      | inl success ↦ rw (absent, success) (refl, refl, refl)
      | inr failure ↦ rw (absent, failure) tt
    ]
  ]

  pub Adds-parent :
      (parent : Option Components) (s : Extraction) → Adds [] [] s (ensure_parent_of works parent s)
  unfolding ensure_parent
  Adds-parent none s = (refl, refl, refl)
  Adds-parent (some parent) s = elim (Bool-cases (is_created s.created_dirs parent)) [
    | inl created ↦ rw created (refl, refl, refl)
    | inr absent ↦ rw absent (Adds-call [] [] (create_dir_all parent) s _ (refl, refl, refl))
  ]

  Adds-symlink :
      (dir : Components) (link_name : Option Text) (dest : Components) (s : Extraction)
      → Adds (file_of_kind symlink link_name dest) [] s (process_symlink works dir link_name dest s)
  unfolding process_symlink try_call call
  Adds-symlink dir none dest s = (refl, refl, refl)
  Adds-symlink dir (some target) dest s =
      elim (Bool-cases (is_safe_symlink (components target) dest dir)) [
        | inl safe ↦
            elim (Bool-cases (
              works (remove_dir_all dest ∷ remove_file dest ∷ s.calls)
                (make_symlink target dest))) [
                  | inl success ↦ rw (safe, success) (refl, refl, refl)
                  | inr failure ↦ rw (safe, failure) tt
                ]
        | inr unsafe ↦ rw unsafe tt
      ]

  pub Adds-kind :
      (dir : Components) (kind : EntryKind) (link_name : Option Text) (dest : Components)
      (s : Extraction)
      → Adds
          (file_of_kind kind link_name dest)
          (dir_of_kind kind dest)
          s
          (process_kind works dir kind link_name dest s)
  unfolding process_kind process_file
  Adds-kind dir directory link_name dest s = Adds-dir dest s
  Adds-kind dir symlink link_name dest s = Adds-symlink dir link_name dest s
  Adds-kind dir hard_link link_name dest s = tt
  Adds-kind dir regular link_name dest s =
      Adds-call (dest ∷ []) [] (unpack dest) s _ (refl, refl, refl)
  Adds-kind dir other_kind link_name dest s = tt
