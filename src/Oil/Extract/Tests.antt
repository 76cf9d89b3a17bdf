-- ===== src/Oil/Extract/Tests.antt =====
-- The theorems on extraction at a small payload.
use alpenglow.Prelude.{
  Text, units, Bool, true, false, not, ◌≡◌, ◌≢◌, refl, none, some, List, [], ◌∷◌, ◌++◌, ◌&&◌,
  length,
}
use alpenglow.Oil.FilePath.{
  Component, root_dir, parent_dir, normal, Components, components, segments, component_of,
  components_of, join, starts_with, pop,
}
use alpenglow.Oil.Extract.{
  is_absolute, walk, is_safe_symlink, contains_dots, strip_entry, is_skipped, directory, symlink,
  hard_link, regular, Entry, DiskCall, create_dir_all, remove_file, remove_dir_all, unpack,
  make_symlink, call, try_call, ensure_parent, process_dir, process_symlink, process_file,
  process_kind, process_tar_entry, process_entries, is_created, same_path, mark_parents, untar,
  extract_payload,
}
use alpenglow.Oil.Extract.Walk.{stays, is_safe_symlink-eq-stays}
use alpenglow.Oil.Extract.Confined.{Confines}
use alpenglow.Oil.Extract.Inside.{extract_payload-IsConfined}
use alpenglow.Oil.Extract.Added.{files_of, dirs_of}
use alpenglow.Oil.Extract.Listed.{Lists, extract_payload-Lists}
use alpenglow.Oil.Extract.Accepted.{is_done, all_work}

abbrev dest_dir : Text
dest_dir = units "/r"

abbrev payload : List Entry
payload =
    record { path = units ".PKGINFO"; kind = regular; link_name = none }
    ∷ record { path = units "./bin/"; kind = directory; link_name = none }
    ∷ record { path = units "bin/busybox"; kind = regular; link_name = none }
    ∷ record { path = units "../evil"; kind = regular; link_name = none }
    ∷ record { path = units "bin/sh"; kind = symlink; link_name = some (units "busybox") }
    ∷ []

abbrev bin : Components
bin = root_dir ∷ normal (units "r") ∷ normal (units "bin") ∷ []

-- The disk is full when busybox is written.
abbrev disk_full : List DiskCall → DiskCall → Bool
disk_full calls (unpack path) = false
disk_full calls (create_dir_all path) = true
disk_full calls (remove_file path) = true
disk_full calls (remove_dir_all path) = true
disk_full calls (make_symlink target path) = true

lists_two : is_done (extract_payload all_work dest_dir payload) ≡ true
unfolding extract_payload untar process_entries process_tar_entry process_kind process_dir
    process_symlink process_file ensure_parent call try_call is_skipped strip_entry contains_dots
    is_safe_symlink walk components components_of component_of segments join starts_with pop
    is_created same_path mark_parents
lists_two = refl

hard_link_stops :
    is_done (
      extract_payload all_work dest_dir
        (record { path = units "a"; kind = hard_link; link_name = some (units "b") } ∷ []))
    ≡ false
unfolding extract_payload untar process_entries process_tar_entry process_kind ensure_parent call
    is_skipped strip_entry contains_dots components components_of component_of segments join
    starts_with pop is_created same_path mark_parents
hard_link_stops = refl

is_safe_symlink-eq-stays_example :
    is_safe_symlink
      (parent_dir ∷ normal (units "lib") ∷ [])
      ((bin ++ normal (units "a") ∷ []) ++ normal (units "l") ∷ [])
      bin
    ≡ (not (is_absolute (parent_dir ∷ normal (units "lib") ∷ []))
        && stays
            (length {A = Component} (normal (units "a") ∷ []))
            (parent_dir ∷ normal (units "lib") ∷ []))
is_safe_symlink-eq-stays_example =
    is_safe_symlink-eq-stays bin (parent_dir ∷ normal (units "lib") ∷ []) (normal (units "a") ∷ [])
      (units "l") refl

dest_dir_given : dest_dir ≢ []
dest_dir_given e = cc

extract_payload-IsConfined_example :
    Confines (components dest_dir) (extract_payload disk_full dest_dir payload)
extract_payload-IsConfined_example =
    extract_payload-IsConfined disk_full dest_dir dest_dir_given payload

extract_payload-Lists_example :
    Lists
      (files_of dest_dir payload)
      (dirs_of dest_dir payload)
      (extract_payload all_work dest_dir payload)
extract_payload-Lists_example = extract_payload-Lists all_work dest_dir payload
