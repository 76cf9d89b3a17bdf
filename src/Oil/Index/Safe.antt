-- ===== src/Oil/Index/Safe.antt =====
-- The search of an archive ends and stays within it.
use alpenglow.Prelude.{
  ℕ, zero, suc, ◌+◌, ◌-◌, ◌≤◌, ◌<◌, Text, true, false, ◌≡◌, refl, ap, ◌∙◌, Option, none, some, List,
  [], ◌∷◌, all, ◌==◌, ltb, leb, length, drop, take, arith, Bool-cases, inl, inr,
}
use alpenglow.Oil.Index.{
  word, max_index_size, slice, is_index_name, Scan, found, absent, failed, panicked, exhausted,
  found_slice, next_offset, scan_entry, read_header, scan_from, scan_archive,
}

-- The index that is found is a piece of the archive; no panic, and an end.
abbrev pub StaysIn : List ℕ → Scan → Type 0
StaysIn tar (found content) = (from : ℕ) × (to : ℕ) × (slice from to tar ≡ some content)
StaysIn tar absent = Unit
StaysIn tar (failed e) = Unit
StaysIn tar panicked = true ≡ false
StaysIn tar exhausted = true ≡ false

slice_within :
    (from to : ℕ) (bytes : List ℕ)
    → from ≤ to
    → to ≤ length bytes
    → slice from to bytes ≡ some (take (to - from) (drop from bytes))
unfolding slice
slice_within from to bytes h k =
    let ordered : leb from to ≡ true = ground (arith, h) in
    let inside : leb to (length bytes) ≡ true = ground (arith, k) in rw (ordered, inside) refl

length-take-drop :
    (n m : ℕ) (bytes : List ℕ) → n + m ≤ length bytes → length (take m (drop n bytes)) ≡ m
length-take-drop zero zero bytes h = refl
length-take-drop zero (suc m) [] h = absurd (omega (arith, h))
length-take-drop zero (suc m) (x ∷ bytes) h =
    ap suc (length-take-drop zero m bytes (omega (arith, h)))
length-take-drop (suc n) m [] h = absurd (omega (arith, h))
length-take-drop (suc n) m (x ∷ bytes) h = length-take-drop n m bytes (omega (arith, h))

next_offset_bounds :
    (data_start size : ℕ)
    → (data_start ≤ next_offset data_start size)
      × (next_offset data_start size < (data_start + size) + 512)
next_offset_bounds data_start size = (omega arith, omega arith)

module _ (from_utf8_lossy : List ℕ → Text) (tar : List ℕ) (fits : length tar + 1536 < word) where
  found_slice-StaysIn :
      (from to : ℕ) → from ≤ to → to ≤ length tar → StaysIn tar (found_slice (slice from to tar))
  found_slice-StaysIn from to h k =
      rw (slice_within from to tar h k) (from, to, slice_within from to tar h k)

  scan_entry-StaysIn :
      (next : ℕ → Scan) (data_start : ℕ) (name : Option Text) (size : Option ℕ)
      → data_start ≤ length tar
      → ((offset : ℕ) → data_start ≤ offset → offset ≤ length tar + 512 → StaysIn tar (next offset))
      → StaysIn tar (scan_entry from_utf8_lossy next tar data_start name size)
  unfolding scan_entry
  scan_entry-StaysIn next data_start name none h k = tt
  scan_entry-StaysIn next data_start name (some size) h k =
      elim (Bool-cases (ltb (data_start + size) word)) [
        | inr large ↦ rw (scan_entry, large) tt
        | inl fine ↦ elim (Bool-cases (ltb (length tar) (data_start + size))) [
          | inl short ↦ rw (scan_entry, fine, short) tt
          | inr whole ↦
              let (after, before) = next_offset_bounds data_start size in
              let ends : data_start + size ≤ length tar = ground (arith, whole) in
              let counts : ltb (next_offset data_start size) word ≡ true =
                ground (arith, before, ends, fits) in
              elim (Bool-cases (is_index_name name)) [
                | inl index ↦
                    rw (scan_entry, fine, whole, index)
                      (found_slice-StaysIn data_start (data_start + size) (omega arith) ends)
                | inr other ↦
                    rw (scan_entry, fine, whole, other, counts)
                      (k (next_offset data_start size) after (omega (arith, before, ends)))
              ]
        ]
      ]

  read_header-StaysIn :
      (next : ℕ → Scan) (data_start : ℕ) (header : List ℕ)
      → length header ≡ 512
      → data_start ≤ length tar
      → ((offset : ℕ) → data_start ≤ offset → offset ≤ length tar + 512 → StaysIn tar (next offset))
      → StaysIn tar (read_header from_utf8_lossy next tar data_start header)
  unfolding read_header
  read_header-StaysIn next data_start header l h k =
      rw
        (
          read_header,
          slice_within 0 100 header (omega arith) (omega (arith, l)),
          slice_within 124 136 header (omega arith) (omega (arith, l)),
        )
        (scan_entry-StaysIn next data_start _ _ h k)

  scan_from-StaysIn :
      (fuel offset : ℕ)
      → length tar - offset < fuel
      → offset ≤ length tar + 512
      → StaysIn tar (scan_from from_utf8_lossy fuel tar offset)
  unfolding scan_from
  scan_from-StaysIn zero offset f h = absurd (omega (arith, f))
  scan_from-StaysIn (suc fuel) offset f h =
      let counts : ltb (offset + 512) word ≡ true = ground (arith, h, fits) in
      elim (Bool-cases (leb (offset + 512) (length tar))) [
        | inr past ↦ rw (scan_from, counts, past) tt
        | inl within ↦
            let ends : offset + 512 ≤ length tar = ground (arith, within) in
            let header = take ((offset + 512) - offset) (drop offset tar) in
            let is_header : slice offset (offset + 512) tar ≡ some header =
              slice_within offset (offset + 512) tar (omega arith) ends in
            elim (Bool-cases (all (λ byte. byte == 0) header)) [
              | inl last ↦ rw (scan_from, counts, within, is_header, last) tt
              | inr entry ↦
                  rw (scan_from, counts, within, is_header, entry)
                    (read_header-StaysIn (scan_from from_utf8_lossy fuel tar) (offset + 512) header
                      (length-take-drop offset ((offset + 512) - offset) tar (omega (arith, ends))
                        ∙ omega arith)
                      ends
                      (λ next after before.
                        scan_from-StaysIn fuel next (omega (arith, f, after, ends)) before))
            ]
      ]

-- In an archive that is no longer than what is read of one, the search for the index ends, with the index,
-- without one or with an error: no slice is out of range, no sum overflows, and the index that is found
-- is a piece of the archive.
pub scan_archive-StaysIn :
    (from_utf8_lossy : List ℕ → Text) (tar : List ℕ)
    → length tar ≤ max_index_size
    → StaysIn tar (scan_archive from_utf8_lossy tar)
unfolding scan_archive
scan_archive-StaysIn from_utf8_lossy tar h =
    scan_from-StaysIn from_utf8_lossy tar (omega (arith, h)) (suc (length tar)) 0 (omega arith)
      (omega arith)
