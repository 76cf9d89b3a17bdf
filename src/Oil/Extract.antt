-- ===== src/Oil/Extract.antt =====
-- system/oil/src/system/extractor/apk.rs, lines 210-352: the entries of a payload and what is done on
-- the disk for each. The reader of the archive is a list of entries, and whether a call of the
-- operating system succeeds is a parameter.
pub mod Walk
pub mod Names
pub mod Confined
pub mod Inside
pub mod Added
pub mod Listed
pub mod Marks
mod Tests
pub mod Accepted
use mathlib.Core.Option
use alpenglow.Prelude.{
  ℕ, ◌==◌, ◌+◌, zero, suc, Text, Bool, true, false, not, Option, none, some, List, [], ◌∷◌, ◌++◌,
  if◌then◌else◌, ◌||◌, ◌&&◌, text_eq, units, length, any, drop_while, strip_prefix,
}
use alpenglow.Oil.FilePath.{
  Component, root_dir, cur_dir, parent_dir, normal, Components, components, join, starts_with, pop,
}

abbrev pub is_absolute : Components → Bool
is_absolute [] = false
is_absolute (root_dir ∷ _) = true
is_absolute (_ ∷ _) = false

abbrev pub or_empty : Option Components → Components
or_empty none = []
or_empty (some path) = path

-- The loop over the components of the target (lines 217-234).
pub walk : Components → Components → Components → Bool
walk dest_dir [] resolved = starts_with resolved dest_dir
walk dest_dir (parent_dir ∷ target) resolved = elim (pop resolved) [
  | none ↦ false
  | some up ↦ let rest = walk dest_dir target up in if starts_with up dest_dir then rest else false
]
walk dest_dir (normal name ∷ target) resolved = walk dest_dir target (resolved ++ normal name ∷ [])
walk dest_dir (root_dir ∷ target) resolved = walk dest_dir target resolved
walk dest_dir (cur_dir ∷ target) resolved = walk dest_dir target resolved

pub is_safe_symlink : Components → Components → Components → Bool
unfolding walk
is_safe_symlink target dest dest_dir =
    if is_absolute target then false else walk dest_dir target (or_empty (pop dest))

-- `contains("..")`
unfoldable pub contains_dots : Text → Bool
contains_dots [] = false
contains_dots (c ∷ []) = false
contains_dots (c ∷ d ∷ t) = (c == b'.' && d == b'.') || contains_dots (d ∷ t)

abbrev or_text_of : Option Text → Text → Text
or_text_of none t = t
or_text_of (some rest) t = rest

-- Lines 251-254.
pub strip_entry : Text → Text
strip_entry name = drop_while (λ c. c == b'/') (or_text_of (strip_prefix (units "./") name) name)

abbrev starts_sign : Option Text → Bool
starts_sign none = false
starts_sign (some _) = true

-- Lines 247-257: the entry is control data, or its name is not one to write to.
pub is_skipped : Text → Bool
unfolding strip_entry contains_dots
is_skipped name =
    text_eq name (units ".PKGINFO")
    || text_eq name (units ".INSTALL")
    || starts_sign (strip_prefix (units ".SIGN.") name)
    || text_eq (strip_entry name) []
    || contains_dots (strip_entry name)

pub data EntryKind : Type 0 where
  directory symlink hard_link regular other_kind : EntryKind

pub record Entry : Type 0 where
  pub path : Text
  pub kind : EntryKind
  pub link_name : Option Text

-- What is done on the disk.
pub data DiskCall : Type 0 where
  create_dir_all remove_file remove_dir_all unpack : Components → DiskCall
  make_symlink : Text → Components → DiskCall

pub data ExtractError : Type 0 where
  io : DiskCall → ExtractError
  unsafe_symlink : Text → ExtractError
  hard_link_refused unsupported_kind : ExtractError

-- The collections of `untar`, and the calls so far, the latest first. The paths are compared by their
-- components, as `PathBuf` is.
pub record Extraction : Type 0 where
  pub files : List Components
  pub dirs : List Components
  pub created_dirs : List Components
  pub calls : List DiskCall

pub data Extracted : Type 0 where
  done : Extraction → Extracted
  stopped : ExtractError → Extraction → Extracted

infixl 5 ◌>>=◌
abbrev pub ◌>>=◌ : Extracted → (Extraction → Extracted) → Extracted
done s >>= k = k s
stopped e s >>= k = stopped e s

pub same_path : Components → Components → Bool
same_path a b = starts_with a b && starts_with b a

pub is_created : List Components → Components → Bool
is_created set path = any (same_path path) set

-- Lines 263-270, from a directory upwards; there are no more steps than components.
pub mark_parents : ℕ → Components → List Components → List Components
mark_parents zero current set = set
mark_parents (suc fuel) current set = if is_created set current then set else elim (pop current) [
  | none ↦ current ∷ set
  | some parent ↦ mark_parents fuel parent (current ∷ set)
]

module _ (works : List DiskCall → DiskCall → Bool) where
  -- A call, which may fail, and what is done with its failure: `?`, or `let _ =`.
  pub call : DiskCall → Extraction → Extracted
  call c s =
      let after = record s { calls = c ∷ s.calls } in
      if works s.calls c then done after else stopped (io c) after

  pub try_call : DiskCall → Extraction → Extraction
  try_call c s = record s { calls = c ∷ s.calls }

  -- Lines 260-272.
  pub ensure_parent : Components → Extraction → Extracted
  ensure_parent parent s =
      if is_created s.created_dirs parent
      then done s
      else call (create_dir_all parent) s >>= λ t.
          done
            (record t { created_dirs = mark_parents (suc (length parent)) parent t.created_dirs })

  pub process_dir : Components → Extraction → Extracted
  process_dir dest s =
      (if is_created s.created_dirs dest
        then done s
        else call (create_dir_all dest) s >>= λ t.
            done (record t { created_dirs = dest ∷ t.created_dirs }))
      >>= λ t. done (record t { dirs = dest ∷ t.dirs })

  pub process_symlink : Components → Option Text → Components → Extraction → Extracted
  process_symlink dest_dir none dest s = done s
  process_symlink dest_dir (some target) dest s =
      if not (is_safe_symlink (components target) dest dest_dir)
      then stopped (unsafe_symlink target) s
      else call (make_symlink target dest)
          (try_call (remove_dir_all dest) (try_call (remove_file dest) s))
        >>= λ t. done (record t { files = dest ∷ t.files })

  pub process_file : Components → Extraction → Extracted
  process_file dest s = call (unpack dest) s >>= λ t. done (record t { files = dest ∷ t.files })

  -- Lines 274-289.
  pub process_kind : Components → EntryKind → Option Text → Components → Extraction → Extracted
  process_kind dest_dir directory link_name dest s = process_dir dest s
  process_kind dest_dir symlink link_name dest s = process_symlink dest_dir link_name dest s
  process_kind dest_dir hard_link link_name dest s = stopped hard_link_refused s
  process_kind dest_dir regular link_name dest s = process_file dest s
  process_kind dest_dir other_kind link_name dest s = stopped unsupported_kind s

  abbrev pub ensure_parent_of : Option Components → Extraction → Extracted
  ensure_parent_of none s = done s
  ensure_parent_of (some parent) s = ensure_parent parent s

  pub process_tar_entry : Text → Entry → Extraction → Extracted
  process_tar_entry dest_dir entry s =
      let dest = components (join dest_dir (strip_entry entry.path)) in
      if is_skipped entry.path
      then done s
      else ensure_parent_of (pop dest) s >>= λ t.
          process_kind (components dest_dir) entry.kind entry.link_name dest t

  pub process_entries : Text → List Entry → Extraction → Extracted
  process_entries dest_dir [] s = done s
  process_entries dest_dir (entry ∷ entries) s =
      process_tar_entry dest_dir entry s >>= λ t. process_entries dest_dir entries t

  -- After the calls so far.
  pub untar : Text → List Entry → List DiskCall → Extracted
  untar dest_dir entries calls =
      process_entries dest_dir entries
        (record { files = []; dirs = []; created_dirs = components dest_dir ∷ []; calls = calls })

  -- The end of `extract_tracked` (lines 84-85).
  pub extract_payload : Text → List Entry → Extracted
  extract_payload dest_dir entries =
      call (create_dir_all (components dest_dir))
        (record { files = []; dirs = []; created_dirs = []; calls = [] })
      >>= λ s. untar dest_dir entries s.calls
