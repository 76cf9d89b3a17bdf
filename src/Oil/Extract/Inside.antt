-- ===== src/Oil/Extract/Inside.antt =====
-- Where the calls of `untar` write.
use alpenglow.Prelude.{Text, Bool, ◌≢◌, ◌∙◌, refl, List, [], ◌∷◌, arith, Bool-cases, inl, inr}
use alpenglow.Oil.FilePath.{components}
use alpenglow.Oil.Extract.{
  is_skipped, Entry, DiskCall, create_dir_all, Extraction, call, process_tar_entry, process_entries,
  untar, extract_payload,
}
use alpenglow.Oil.Extract.Names.{names_of, components-join-strip_entry}
use alpenglow.Oil.Extract.Confined.{
  IsConfined, Confines, inside-append, inside_refl, after->>=, after_kind, after_parent, after_call,
}

module _ (works : List DiskCall → DiskCall → Bool) (dest_dir : Text) (given : dest_dir ≢ []) where
  after_entry :
      (entry : Entry) (s : Extraction)
      → IsConfined (components dest_dir) s
      → Confines (components dest_dir) (process_tar_entry works dest_dir entry s)
  unfolding process_tar_entry
  after_entry entry s i = elim (Bool-cases (is_skipped entry.path)) [
    | inl skipped ↦ rw skipped i
    | inr taken ↦
        let (is_below, normal_names) =
          components-join-strip_entry dest_dir entry.path given taken in
        rw (taken, is_below)
          (after->>= works (components dest_dir) _ _
            (after_parent works (components dest_dir) (names_of entry.path) _ s normal_names refl i)
            (λ t.
              after_kind works (components dest_dir) entry.kind entry.link_name _ t
                (inside-append (components dest_dir) (names_of entry.path) ∙ normal_names)))
  ]

  after_entries :
      (entries : List Entry) (s : Extraction)
      → IsConfined (components dest_dir) s
      → Confines (components dest_dir) (process_entries works dest_dir entries s)
  unfolding process_entries
  after_entries [] s i = i
  after_entries (entry ∷ entries) s i =
      after->>= works (components dest_dir) (process_tar_entry works dest_dir entry s) _
        (after_entry entry s i) (after_entries entries)

  -- Given a directory, whether the extraction is done or stopped, and whichever calls fail: every call
  -- on the disk is at the directory or at a path that follows the directory with names alone, none of
  -- which is `..` (or makes a directory that is above it); a link is made only if its target is safe
  -- from where it stands; and the files and directories that are listed are at such paths, too.
  pub extract_payload-IsConfined :
      (entries : List Entry)
      → Confines (components dest_dir) (extract_payload works dest_dir entries)
  unfolding extract_payload untar
  extract_payload-IsConfined entries =
      after->>= works (components dest_dir) (call works (create_dir_all (components dest_dir)) _) _
        (after_call works (components dest_dir) (create_dir_all (components dest_dir)) _
          (rw (inside_refl (components dest_dir)) refl) refl)
        (λ s i. after_entries entries _ (ground arith))
