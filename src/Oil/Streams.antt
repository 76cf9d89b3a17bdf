-- ===== src/Oil/Streams.antt =====
-- system/oil/src/system/extractor/apk.rs, lines 88-189: the gzip streams of a package. `memchr` and the
-- decoder of gzip are parameters.
pub mod Magics
pub mod Search
pub mod Bounds
mod Tests
use alpenglow.Prelude.{
  ℕ, zero, suc, ◌+◌, ◌-◌, ◌*◌, Bool, true, false, Option, none, some, List, [], ◌∷◌, ◌++◌,
  if◌then◌else◌, ltb, leb, ◌==◌, ◌&&◌, length, get_elem?, drop, take,
}

abbrev pub is_second_byte : Option ℕ → Bool
is_second_byte none = false
is_second_byte (some byte) = byte == 0x8b

-- `i + 1 < data.len() && data[i + 1] == 0x8b`
unfoldable pub has_second_byte : List ℕ → ℕ → Bool
has_second_byte bytes i = is_second_byte (get_elem? bytes (suc i))

pub data StartsError : Type 0 where
  overlap out_of_fuel : StartsError
  too_few : ℕ → StartsError

pub data Starts : Type 0 where
  found : List ℕ → Starts
  not_found : StartsError → Starts

-- Lines 182-188.
abbrev pub enough_starts : ℕ → List ℕ → Starts
enough_starts count starts =
    if ltb (length starts) count then not_found (too_few (length starts)) else found starts

abbrev pub min : ℕ → ℕ → ℕ
min a b = if ltb b a then b else a

pub data SplitError : Type 0 where
  too_many_streams : ℕ → SplitError
  too_large : ℕ → SplitError
  no_starts : StartsError → SplitError
  not_gzip : SplitError
  stream_too_large total_too_large : ℕ → SplitError

-- A subtraction below 0 and `remove` of an element that is not there panic.
pub data Split : Type 0 where
  streams : List ℕ → List ℕ → List ℕ → Split
  failed : SplitError → Split
  panicked : Split

abbrev pub three_of : List (List ℕ) → Split
three_of (a ∷ b ∷ c ∷ out) = streams a b c
three_of _ = panicked

abbrev pub mib : ℕ
mib = 1048576

module _ (memchr : ℕ → List ℕ → Option ℕ) where
  -- The loop of lines 165-180, from an offset.
  unfoldable pub find_from : ℕ → List ℕ → ℕ → ℕ → ℕ → List ℕ → Starts
  find_from zero bytes count offset last_pos starts = not_found out_of_fuel
  find_from (suc fuel) bytes count offset last_pos starts = elim (memchr 0x1f (drop offset bytes)) [
    | none ↦ enough_starts count starts
    | some pos ↦
        let i = offset + pos in
        elim (has_second_byte bytes i) [
          | false ↦ find_from fuel bytes count (suc i) last_pos starts
          | true ↦ elim (ltb i last_pos) [
            | true ↦ not_found overlap
            | false ↦
                let pushed = starts ++ i ∷ [] in
                elim (leb count (length pushed)) [
                  | true ↦ enough_starts count pushed
                  | false ↦ find_from fuel bytes count (suc i) i pushed
                ]
          ]
        ]
  ]

  -- Each round starts after the last, so there are no more rounds than bytes and one.
  unfoldable pub find_gzip_stream_starts : List ℕ → ℕ → Starts
  find_gzip_stream_starts bytes count = find_from (suc (length bytes)) bytes count 0 0 []

  -- `decoder.take(allowed + 1).read_to_end`: what the decoder gives from these bytes, at most as much as
  -- is asked for, or an error.
  module _ (read_gzip : List ℕ → ℕ → Option (List ℕ)) (max_stream_size max_total_size : ℕ) where
    -- The loop of lines 124-154, from the starts that are left.
    unfoldable pub read_streams : List ℕ → List ℕ → ℕ → List (List ℕ) → Split
    read_streams bytes [] total_decompressed out = three_of out
    read_streams bytes (start ∷ starts) total_decompressed out =
        let remaining = max_total_size - total_decompressed in
        let allowed = min max_stream_size remaining in
        elim (ltb max_total_size total_decompressed) [
          | true ↦ panicked
          | false ↦ elim (read_gzip (drop start bytes) (suc allowed)) [
            | none ↦ failed not_gzip
            | some buf ↦ elim (ltb max_stream_size (length buf)) [
              | true ↦ failed (stream_too_large (length buf))
              | false ↦ elim (ltb remaining (length buf)) [
                | true ↦ failed (total_too_large (total_decompressed + length buf))
                | false ↦
                    read_streams bytes starts (total_decompressed + length buf) (out ++ buf ∷ [])
              ]
            ]
          ]
        ]

    abbrev pub read_found : List ℕ → ℕ → Starts → Split
    read_found bytes count (not_found e) = failed (no_starts e)
    read_found bytes count (found starts) = read_streams bytes (take count starts) 0 []

    unfoldable pub split_gzip_streams_with_limits : List ℕ → ℕ → Split
    split_gzip_streams_with_limits bytes count =
        if ltb 3 count
        then failed (too_many_streams count)
        else if ltb max_total_size (length bytes)
        then failed (too_large (length bytes))
        else read_found bytes count (find_gzip_stream_starts bytes count)

  unfoldable pub split_gzip_streams : (List ℕ → ℕ → Option (List ℕ)) → List ℕ → ℕ → Split
  split_gzip_streams read_gzip = split_gzip_streams_with_limits read_gzip (1024 * mib) (2048 * mib)
