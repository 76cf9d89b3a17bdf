-- ===== src/Oil/Find.antt =====
-- system/oil/src/main.rs, lines 346-377: the search for a part of the name of a package or of its
-- description. `memchr2` is a parameter; a slice out of range panics.
pub mod Naive
pub mod Slices
mod Tests
use alpenglow.Prelude.{
  ℕ, zero, suc, ◌+◌, ◌-◌, ◌==◌, leb, ltb, Text, Bool, true, false, ◌&&◌, ◌||◌, Option, none, some,
  List, [], ◌∷◌, if◌then◌else◌, length, map,
}
use alpenglow.Oil.Index.{slice}
use alpenglow.Oil.Package.{PackageMetadata}
use alpenglow.Oil.Download.{ascii_lower, to_ascii_lowercase}

abbrev pub ascii_upper : ℕ → ℕ
ascii_upper c = if leb b'a' c && leb c b'z' then c - 32 else c

-- `eq_ignore_ascii_case`
abbrev pub eq_ignore_ascii_case : List ℕ → List ℕ → Bool
eq_ignore_ascii_case [] [] = true
eq_ignore_ascii_case [] (_ ∷ _) = false
eq_ignore_ascii_case (_ ∷ _) [] = false
eq_ignore_ascii_case (a ∷ s) (b ∷ t) = ascii_lower a == ascii_lower b && eq_ignore_ascii_case s t

-- Lines 367-371: the tail of the needle is compared with what is there.
abbrev pub match_there : List ℕ → Option (List ℕ) → Option Bool → Option Bool
match_there tail none later = none
match_there tail (some there) later = if eq_ignore_ascii_case there tail then some true else later

-- Lines 361-374: the first place of one of the two bytes, counted from `pos`.
abbrev pub match_first : List ℕ → List ℕ → ℕ → (ℕ → Option Bool) → Option ℕ → Option Bool
match_first haystack tail pos later none = some false
match_first haystack tail pos later (some i) =
    match_there tail (slice (pos + i + 1) (pos + i + suc (length tail)) haystack)
      (later (pos + i + 1))

module _ (memchr2 : ℕ → ℕ → List ℕ → Option ℕ) where
  abbrev pub match_window :
      List ℕ → ℕ → List ℕ → ℕ → (ℕ → Option Bool) → Option (List ℕ) → Option Bool
  match_window haystack first tail pos later none = none
  match_window haystack first tail pos later (some window) =
      match_first haystack tail pos later (memchr2 (ascii_lower first) (ascii_upper first) window)

  -- The loop of lines 360-375 for a needle of a first byte and a tail; `none` is a panic, or the end of
  -- the fuel.
  unfoldable pub search_from : ℕ → List ℕ → ℕ → List ℕ → ℕ → Option Bool
  unfolding slice
  search_from zero haystack first tail pos = none
  search_from (suc fuel) haystack first tail pos =
      let needle_len = suc (length tail) in
      let rest =
        match_window haystack first tail pos (search_from fuel haystack first tail)
          (slice pos (length haystack - needle_len + 1) haystack) in
      if leb (pos + needle_len) (length haystack) then rest else some false

  unfoldable pub contains_ignore_ascii_case : List ℕ → List ℕ → Option Bool
  unfolding search_from
  contains_ignore_ascii_case haystack [] = some true
  contains_ignore_ascii_case haystack (first ∷ tail) =
      if ltb (length haystack) (suc (length tail))
      then some false
      else search_from (suc (length haystack)) haystack first tail 0
