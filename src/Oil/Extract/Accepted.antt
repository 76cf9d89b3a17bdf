-- ===== src/Oil/Extract/Accepted.antt =====
-- Which payloads `untar` takes, when no call of the operating system fails.
use alpenglow.Prelude.{
  Text, Bool, true, false, ◌≡◌, refl, ap, ◌∙◌, Option, none, some, List, [], ◌∷◌, ◌||◌, ◌&&◌, all,
  Bool-cases, inl, inr,
}
use alpenglow.Oil.FilePath.{Components, components, join, pop}
use alpenglow.Oil.Extract.{
  is_safe_symlink, strip_entry, is_skipped, EntryKind, directory, symlink, hard_link, regular,
  other_kind, Entry, DiskCall, Extraction, Extracted, done, stopped, ◌>>=◌, is_created, call,
  ensure_parent, process_dir, process_symlink, process_file, process_kind, ensure_parent_of,
  process_tar_entry, process_entries, untar, extract_payload,
}

abbrev pub is_done : Extracted → Bool
is_done (done _) = true
is_done (stopped _ _) = false

-- A directory, a file, or a link whose target, if it has one, is safe.
abbrev is_accepted_kind : Components → EntryKind → Option Text → Components → Bool
is_accepted_kind dir directory link_name dest = true
is_accepted_kind dir regular link_name dest = true
is_accepted_kind dir symlink none dest = true
is_accepted_kind dir symlink (some target) dest = is_safe_symlink (components target) dest dir
is_accepted_kind dir hard_link link_name dest = false
is_accepted_kind dir other_kind link_name dest = false

abbrev pub is_accepted : Text → Entry → Bool
is_accepted dest_dir entry =
    is_skipped entry.path
    || is_accepted_kind (components dest_dir) entry.kind entry.link_name
        (components (join dest_dir (strip_entry entry.path)))

abbrev pub all_work : List DiskCall → DiskCall → Bool
all_work calls c = true

is_done->>= :
    (r : Extracted) (k : Extraction → Extracted) (b : Bool)
    → ((s : Extraction) → is_done (k s) ≡ b)
    → is_done (r >>= k) ≡ (is_done r && b)
is_done->>= (done s) k b h = h s
is_done->>= (stopped e s) k b h = refl

is_done-process_dir :
    (dest : Components) (s : Extraction) → is_done (process_dir all_work dest s) ≡ true
unfolding process_dir call
is_done-process_dir dest s = elim (Bool-cases (is_created s.created_dirs dest)) [
  | inl created ↦ rw created refl
  | inr absent ↦ rw absent refl
]

is_done-ensure_parent_of :
    (parent : Option Components) (s : Extraction)
    → is_done (ensure_parent_of all_work parent s) ≡ true
unfolding ensure_parent call
is_done-ensure_parent_of none s = refl
is_done-ensure_parent_of (some parent) s = elim (Bool-cases (is_created s.created_dirs parent)) [
  | inl created ↦ rw created refl
  | inr absent ↦ rw absent refl
]

is_done-process_kind :
    (dir : Components) (kind : EntryKind) (link_name : Option Text) (dest : Components)
    (s : Extraction)
    → is_done (process_kind all_work dir kind link_name dest s)
      ≡ is_accepted_kind dir kind link_name dest
unfolding process_kind process_symlink process_file call
is_done-process_kind dir directory link_name dest s = is_done-process_dir dest s
is_done-process_kind dir regular link_name dest s = refl
is_done-process_kind dir symlink none dest s = refl
is_done-process_kind dir symlink (some target) dest s =
    elim (Bool-cases (is_safe_symlink (components target) dest dir)) [
      | inl safe ↦ rw safe refl
      | inr unsafe ↦ rw unsafe refl
    ]
is_done-process_kind dir hard_link link_name dest s = refl
is_done-process_kind dir other_kind link_name dest s = refl

is_done-process_tar_entry :
    (dest_dir : Text) (entry : Entry) (s : Extraction)
    → is_done (process_tar_entry all_work dest_dir entry s) ≡ is_accepted dest_dir entry
unfolding process_tar_entry
is_done-process_tar_entry dest_dir entry s = elim (Bool-cases (is_skipped entry.path)) [
  | inl skipped ↦ rw skipped refl
  | inr taken ↦
      let dest = components (join dest_dir (strip_entry entry.path)) in
      let accepted = is_accepted_kind (components dest_dir) entry.kind entry.link_name dest in
      rw taken (
        is_done->>= (ensure_parent_of all_work (pop dest) s) _ accepted
          (is_done-process_kind (components dest_dir) entry.kind entry.link_name dest)
        ∙ ap (λ b. b && accepted) (is_done-ensure_parent_of (pop dest) s))
]

is_done-process_entries :
    (dest_dir : Text) (entries : List Entry) (s : Extraction)
    → is_done (process_entries all_work dest_dir entries s) ≡ all (is_accepted dest_dir) entries
unfolding process_entries
is_done-process_entries dest_dir [] s = refl
is_done-process_entries dest_dir (entry ∷ entries) s =
    is_done->>= (process_tar_entry all_work dest_dir entry s) _ (all (is_accepted dest_dir) entries)
      (is_done-process_entries dest_dir entries)
    ∙ ap (λ b. b && all (is_accepted dest_dir) entries) (is_done-process_tar_entry dest_dir entry s)

-- When no call of the operating system fails, the extraction is done exactly if each entry is skipped,
-- or is a directory, a file, a link without a target or a link with a safe target.
pub is_done-extract_payload :
    (dest_dir : Text) (entries : List Entry)
    → is_done (extract_payload all_work dest_dir entries) ≡ all (is_accepted dest_dir) entries
unfolding extract_payload untar call
is_done-extract_payload dest_dir entries = is_done-process_entries dest_dir entries _
