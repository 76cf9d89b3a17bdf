-- ===== src/Oil/Streams/Search.antt =====
-- The search for the starts of the streams.
use alpenglow.Prelude.{
  ℕ, zero, suc, ◌+◌, ◌-◌, ◌≤◌, ◌<◌, true, false, ◌≡◌, refl, sym, ap, ◌∙◌, Option, List, [], ◌∷◌,
  ◌++◌, append-nil, append_assoc, ltb, leb, length, drop, take, arith, Bool-cases, Option-cases,
  inl, inr,
}
use alpenglow.Oil.Streams.{
  has_second_byte, found, enough_starts, find_from, find_gzip_stream_starts,
}
use alpenglow.Oil.Streams.Magics.{position, magics, first_magics, magics-none, magics_from}

take-append : (xs ys : List ℕ) (n : ℕ) → length xs ≡ n → take n (xs ++ ys) ≡ xs
take-append [] ys zero h = refl
take-append [] ys (suc n) h = absurd (omega (arith, h))
take-append (x ∷ xs) ys zero h = absurd (omega (arith, h))
take-append (x ∷ xs) ys (suc n) h = ap (λ l. x ∷ l) (take-append xs ys n (omega (arith, h)))

length-append : (xs ys : List ℕ) → length (xs ++ ys) ≡ length xs + length ys
length-append [] ys = omega arith
length-append (x ∷ xs) ys = omega (arith, length-append xs ys)

-- A start that fills the count ends the search, and one that does not is too few.
last_start :
    (starts rest : List ℕ) (i count : ℕ)
    → length starts < count
    → leb count (length (starts ++ i ∷ [])) ≡ true
    → enough_starts count (starts ++ i ∷ []) ≡ first_magics count (starts ++ i ∷ rest)
last_start starts rest i count h k =
    let n = length-append starts (i ∷ []) in
    let m = length-append starts (i ∷ rest) in
    let enough : ltb (length (starts ++ i ∷ [])) count ≡ false = ground (arith, n) in
    let more : ltb (length (starts ++ i ∷ rest)) count ≡ false = ground (arith, m) in
    rw (enough, more)
      (ap found (
        sym (take-append (starts ++ i ∷ []) rest count (ground (arith, n, h, k)))
        ∙ ap (take count) (append_assoc starts (i ∷ []) rest)))

no_more_starts :
    (starts : List ℕ) (count : ℕ)
    → length starts < count
    → enough_starts count starts ≡ first_magics count (starts ++ [])
no_more_starts starts count h =
    let few : ltb (length starts) count ≡ true = ground arith in rw (append-nil starts, few) refl

module _ (memchr : ℕ → List ℕ → Option ℕ)
    (is_position : (byte : ℕ) (bytes : List ℕ) → memchr byte bytes ≡ position byte bytes) where
  find_from-magics :
      (fuel : ℕ) (bytes : List ℕ) (count offset last_pos : ℕ) (starts : List ℕ)
      → length bytes - offset < fuel
      → last_pos ≤ offset
      → length starts < count
      → find_from memchr fuel bytes count offset last_pos starts
        ≡ first_magics count (starts ++ magics offset (drop offset bytes))
  unfolding find_from
  find_from-magics zero bytes count offset last_pos starts f l n = absurd (omega (arith, f))
  find_from-magics (suc fuel) bytes count offset last_pos starts f l n =
      elim (Option-cases (position 0x1f (drop offset bytes))) [
        | inl e ↦
            rw
              (
                find_from,
                is_position 0x1f (drop offset bytes),
                e,
                magics-none offset (drop offset bytes) e,
              )
              (no_more_starts starts count n)
        | inr (pos, e) ↦
            let i = offset + pos in
            let (places, is_short) = magics_from bytes offset pos e in
            let in_order : ltb i last_pos ≡ false = ground arith in
            elim (Bool-cases (has_second_byte bytes i)) [
              | inr other ↦
                  rw (find_from, is_position 0x1f (drop offset bytes), e, places, other)
                    (find_from-magics fuel bytes count (suc i) last_pos starts
                      (omega (arith, f, is_short)) (omega (arith, l)) n)
              | inl start ↦ elim (Bool-cases (leb count (length (starts ++ i ∷ [])))) [
                | inl full ↦
                    rw
                      (
                        find_from,
                        is_position 0x1f (drop offset bytes),
                        e,
                        places,
                        start,
                        in_order,
                        full,
                      )
                      (last_start starts _ i count n full)
                | inr room ↦
                    rw
                      (
                        find_from,
                        is_position 0x1f (drop offset bytes),
                        e,
                        places,
                        start,
                        in_order,
                        room,
                      )
                      (find_from-magics fuel bytes count (suc i) i (starts ++ i ∷ [])
                          (omega (arith, f, is_short)) (omega arith) (ground (arith, room))
                        ∙ ap (first_magics count) (append_assoc starts (i ∷ []) _))
              ]
            ]
      ]

  -- For at least one stream, with `memchr` giving the first place of a byte: the search gives the first
  -- `count` of the places of the two bytes of gzip, in order, and an error with their number if there are
  -- fewer; its error for an overlap is never given.
  pub find_gzip_stream_starts-magics :
      (bytes : List ℕ) (count : ℕ)
      → 0 < count
      → find_gzip_stream_starts memchr bytes count ≡ first_magics count (magics 0 bytes)
  unfolding find_gzip_stream_starts
  find_gzip_stream_starts-magics bytes count h =
      find_from-magics (suc (length bytes)) bytes count 0 0 [] (omega arith) (omega arith) h
