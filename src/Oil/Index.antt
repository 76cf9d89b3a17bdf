-- ===== src/Oil/Index.antt =====
-- system/oil/src/system/registry/apk.rs, lines 111-120, 197-262: the packages of several repositories
-- without those of a name that is there already, and the search of an archive for its index. How
-- `String::from_utf8_lossy` reads bytes is a parameter; a sum that does not fit a machine word, and a
-- slice out of range, panic.
pub mod Unique
pub mod Safe
mod Tests
use alpenglow.Prelude.{
  ℕ, zero, suc, ◌+◌, ◌-◌, ◌*◌, ◌/◌, ◌^◌, ◌==◌, Text, Bool, true, false, not, Option, none, some,
  List, [], ◌∷◌, if◌then◌else◌, ◌&&◌, all, ltb, leb, length, drop, take, drop_while, take_while,
  text_eq, units, reverse,
}
use alpenglow.Oil.Str.{str_trim}
use alpenglow.Oil.FilePath.{root_dir, cur_dir, parent_dir, normal, Components, components}
use alpenglow.Oil.Package.{PackageMetadata}
use alpenglow.Oil.Resolver.Sets.{contains}

-- `retain` with the names seen so far.
pub retain_unseen : List Text → List PackageMetadata → List PackageMetadata
retain_unseen seen [] = []
retain_unseen seen (pkg ∷ pkgs) = elim (contains seen pkg.name) [
  | true ↦ retain_unseen seen pkgs
  | false ↦ pkg ∷ retain_unseen (pkg.name ∷ seen) pkgs
]

abbrev pub word : ℕ
word = 2 ^ 64

-- MAX_DECOMPRESSED_INDEX_SIZE
abbrev pub max_index_size : ℕ
max_index_size = 256 * 1048576

-- `bytes[from..to]`
unfoldable pub slice : ℕ → ℕ → List ℕ → Option (List ℕ)
slice from to bytes =
    if leb from to && leb to (length bytes) then some (take (to - from) (drop from bytes)) else none

-- `file_name`
abbrev pub file_name : Components → Option Text
file_name [] = none
file_name (normal name ∷ []) = some name
file_name (root_dir ∷ []) = none
file_name (cur_dir ∷ []) = none
file_name (parent_dir ∷ []) = none
file_name (_ ∷ c ∷ path) = file_name (c ∷ path)

abbrev pub is_text : Text → Option Text → Bool
is_text t none = false
is_text t (some s) = text_eq s t

pub is_apkindex_entry : Text → Bool
is_apkindex_entry path = is_text (units "APKINDEX") (file_name (components path))

abbrev pub some_filled : Text → Option Text
some_filled [] = none
some_filled (c ∷ t) = some (c ∷ t)

abbrev pub is_index_name : Option Text → Bool
is_index_name none = false
is_index_name (some name) = is_apkindex_entry name

abbrev pub is_octal : ℕ → Bool
is_octal c = leb b'0' c && leb c b'7'

-- The digits that are left, and the number so far.
pub octal_from : ℕ → Text → Option ℕ
octal_from n [] = some n
octal_from n (c ∷ t) =
    let m = n * 8 + (c - b'0') in
    let rest = octal_from m t in if is_octal c && ltb m word then rest else none

abbrev pub octal_digits : Text → Option ℕ
octal_digits [] = none
octal_digits (c ∷ t) = octal_from 0 (c ∷ t)

-- `usize::from_str_radix(text, 8)`, which takes a plus sign.
abbrev pub from_octal : Text → Option ℕ
from_octal [] = none
from_octal (c ∷ t) = if c == b'+' then octal_digits t else octal_digits (c ∷ t)

abbrev trim_zeros : Text → Text
trim_zeros t = reverse (drop_while (λ c. c == 0) (reverse (drop_while (λ c. c == 0) t)))

pub data ScanError : Type 0 where
  bad_size entry_too_large truncated : ScanError

pub data Scan : Type 0 where
  found : List ℕ → Scan
  absent : Scan
  failed : ScanError → Scan
  panicked exhausted : Scan

abbrev pub found_slice : Option (List ℕ) → Scan
found_slice none = panicked
found_slice (some content) = found content

abbrev pub next_offset : ℕ → ℕ → ℕ
next_offset data_start size = data_start + ((size + 511) / 512) * 512

module _ (from_utf8_lossy : List ℕ → Text) where
  -- The bytes before the first zero.
  abbrev pub filled_string : List ℕ → Option Text
  filled_string [] = none
  filled_string (c ∷ bytes) = some (from_utf8_lossy (c ∷ bytes))

  abbrev pub tar_header_string : List ℕ → Option Text
  tar_header_string bytes = filled_string (take_while (λ c. not (c == 0)) bytes)

  pub tar_header_size : List ℕ → Option ℕ
  tar_header_size bytes = from_octal (str_trim (trim_zeros (from_utf8_lossy bytes)))

  -- An entry whose header is read (lines 226-244), with what is done from the next offset on.
  pub scan_entry : (ℕ → Scan) → List ℕ → ℕ → Option Text → Option ℕ → Scan
  scan_entry next tar data_start name none = failed bad_size
  scan_entry next tar data_start name (some size) =
      let data_end = data_start + size in
      elim (ltb data_end word) [
        | false ↦ failed entry_too_large
        | true ↦ elim (ltb (length tar) data_end) [
          | true ↦ failed truncated
          | false ↦ elim (is_index_name name) [
            | true ↦ found_slice (slice data_start data_end tar)
            | false ↦ elim (ltb (next_offset data_start size) word) [
              | true ↦ next (next_offset data_start size)
              | false ↦ panicked
            ]
          ]
        ]
      ]

  -- Lines 224-225.
  pub read_header : (ℕ → Scan) → List ℕ → ℕ → List ℕ → Scan
  read_header next tar data_start header = elim (slice 0 100 header) [
    | none ↦ panicked
    | some name_field ↦ elim (slice 124 136 header) [
      | none ↦ panicked
      | some size_field ↦
          scan_entry next tar data_start (tar_header_string name_field) (tar_header_size size_field)
    ]
  ]

  -- The loop of lines 217-247.
  pub scan_from : ℕ → List ℕ → ℕ → Scan
  scan_from zero tar offset = exhausted
  scan_from (suc fuel) tar offset = elim (ltb (offset + 512) word) [
    | false ↦ panicked
    | true ↦ elim (leb (offset + 512) (length tar)) [
      | false ↦ absent
      | true ↦ elim (slice offset (offset + 512) tar) [
        | none ↦ panicked
        | some header ↦ elim (all (λ byte. byte == 0) header) [
          | true ↦ absent
          | false ↦ read_header (scan_from fuel tar) tar (offset + 512) header
        ]
      ]
    ]
  ]

  -- Each round starts after the last, so there are no more rounds than bytes and one.
  pub scan_archive : List ℕ → Scan
  scan_archive tar = scan_from (suc (length tar)) tar 0
