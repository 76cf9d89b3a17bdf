-- ===== src/Oil/Extract/Listed.antt =====
-- The files and directories that `untar` lists.
use alpenglow.Prelude.{Text, Bool, ◌≡◌, refl, ◌∙◌, List, [], ◌∷◌, append-nil, Bool-cases, inl, inr}
use alpenglow.Oil.FilePath.{Components, components, pop}
use alpenglow.Oil.Extract.{
  is_skipped, Entry, DiskCall, create_dir_all, Extraction, Extracted, done, stopped, call,
  ensure_parent_of, process_tar_entry, process_entries, untar, extract_payload,
}
use alpenglow.Oil.Extract.Added.{
  file_of_kind, dir_of_kind, dest_of, file_of, dir_of, files_of, dirs_of, written, Adds, Adds->>=,
  Adds-from_none, Adds-parent, Adds-kind,
}

module _ (works : List DiskCall → DiskCall → Bool) where
  Adds-entry :
      (dest_dir : Text) (entry : Entry) (s : Extraction)
      → Adds
          (file_of dest_dir entry)
          (dir_of dest_dir entry)
          s
          (process_tar_entry works dest_dir entry s)
  unfolding process_tar_entry
  Adds-entry dest_dir entry s = elim (Bool-cases (is_skipped entry.path)) [
    | inl skipped ↦ rw skipped (refl, refl, refl)
    | inr taken ↦
        let dest = dest_of dest_dir entry in
        let fs = file_of_kind entry.kind entry.link_name dest in
        let ds = dir_of_kind entry.kind dest in
        rw taken (
          Adds-from_none fs ds s (ensure_parent_of works (pop dest) s) _
            (Adds-parent works (pop dest) s)
            (Adds-kind works (components dest_dir) entry.kind entry.link_name dest))
  ]

  Adds-entries :
      (dest_dir : Text) (entries : List Entry) (s : Extraction)
      → Adds
          (files_of dest_dir entries)
          (dirs_of dest_dir entries)
          s
          (process_entries works dest_dir entries s)
  unfolding process_entries
  Adds-entries dest_dir [] s = (refl, refl, refl)
  Adds-entries dest_dir (entry ∷ entries) s =
      Adds->>= (file_of dest_dir entry) (dir_of dest_dir entry) (files_of dest_dir entries)
        (dirs_of dest_dir entries) s (process_tar_entry works dest_dir entry s) _
        (Adds-entry dest_dir entry s) (Adds-entries dest_dir entries)

-- What a run that is done lists.
abbrev pub Lists : List Components → List Components → Extracted → Type 0
Lists fs ds (done t) = (t.files ≡ fs) × (t.dirs ≡ ds) × (written t.calls ≡ fs)
Lists fs ds (stopped e t) = Unit

module _ (works : List DiskCall → DiskCall → Bool) (dest_dir : Text) (entries : List Entry) where
  abbrev first : Extraction
  first = record {
    files = [];
    dirs = [];
    created_dirs = components dest_dir ∷ [];
    calls = create_dir_all (components dest_dir) ∷ [];
  }

  lists :
      (r : Extracted)
      → Adds (files_of dest_dir entries) (dirs_of dest_dir entries) first r
      → Lists (files_of dest_dir entries) (dirs_of dest_dir entries) r
  lists (done t) (f, d, w) = (f ∙ append-nil _, d ∙ append-nil _, w ∙ append-nil _)
  lists (stopped e t) a = tt

  -- An extraction that is done lists the places of the regular files and of the links with a target, and
  -- the places of the directories, of the entries that are not skipped, in the order of the entries (the
  -- last first); and the files that it lists are those that its calls have written, in that order.
  pub extract_payload-Lists :
      Lists
        (files_of dest_dir entries)
        (dirs_of dest_dir entries)
        (extract_payload works dest_dir entries)
  unfolding extract_payload untar call
  extract_payload-Lists = elim (Bool-cases (works [] (create_dir_all (components dest_dir)))) [
    | inl success ↦ rw success (lists _ (Adds-entries works dest_dir entries _))
    | inr failure ↦ rw failure tt
  ]
