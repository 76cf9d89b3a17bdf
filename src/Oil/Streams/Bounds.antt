-- ===== src/Oil/Streams/Bounds.antt =====
-- The limits on what the streams decompress to.
use alpenglow.Prelude.{
  ℕ, zero, suc, ◌+◌, ◌-◌, ◌≤◌, true, false, ◌≡◌, refl, ap, ◌∙◌, Option, some, List, [], ◌∷◌, ◌++◌,
  ltb, length, drop, take, All, All-snoc, arith, Bool-cases, Option-cases, inl, inr,
}
use alpenglow.Oil.Streams.{
  min, Split, streams, failed, panicked, three_of, read_streams, read_found,
  split_gzip_streams_with_limits,
}
use alpenglow.Oil.Streams.Magics.{position, magics, first_magics}
use alpenglow.Oil.Streams.Search.{find_gzip_stream_starts-magics}

abbrev pub total_of : List (List ℕ) → ℕ
total_of [] = 0
total_of (buf ∷ out) = length buf + total_of out

total_of-snoc :
    (out : List (List ℕ)) (buf : List ℕ) → total_of (out ++ buf ∷ []) ≡ total_of out + length buf
total_of-snoc [] buf = omega arith
total_of-snoc (first ∷ out) buf = omega (arith, total_of-snoc out buf)

count_of : (out : List (List ℕ)) (buf : List ℕ) → length (out ++ buf ∷ []) ≡ suc (length out)
count_of [] buf = refl
count_of (first ∷ out) buf = ap suc (count_of out buf)

-- Streams within the limits, or an error; no panic.
abbrev pub IsWithin : ℕ → ℕ → Split → Type 0
IsWithin max_stream max_total (streams a b c) =
    (length a ≤ max_stream)
    × (length b ≤ max_stream)
    × (length c ≤ max_stream)
    × (length a + (length b + length c) ≤ max_total)
IsWithin max_stream max_total (failed e) = Unit
IsWithin max_stream max_total panicked = true ≡ false

three_of-IsWithin :
    (max_stream max_total : ℕ) (out : List (List ℕ))
    → length out ≡ 3
    → All (λ buf. length buf ≤ max_stream) out
    → total_of out ≤ max_total
    → IsWithin max_stream max_total (three_of out)
three_of-IsWithin ms mt [] n h t = absurd (omega (arith, n))
three_of-IsWithin ms mt (a ∷ []) n h t = absurd (omega (arith, n))
three_of-IsWithin ms mt (a ∷ b ∷ []) n h t = absurd (omega (arith, n))
three_of-IsWithin ms mt (a ∷ b ∷ c ∷ out) n (p, (q, (r, h))) t = (p, q, r, omega (arith, t))

length-take_enough : (n : ℕ) (xs : List ℕ) → n ≤ length xs → length (take n xs) ≡ n
length-take_enough zero xs h = refl
length-take_enough (suc n) [] h = absurd (omega (arith, h))
length-take_enough (suc n) (x ∷ xs) h = ap suc (length-take_enough n xs (omega (arith, h)))

module _ (memchr : ℕ → List ℕ → Option ℕ) (read_gzip : List ℕ → ℕ → Option (List ℕ))
    (max_stream max_total : ℕ) where
  read_streams-IsWithin :
      (bytes starts : List ℕ) (total : ℕ) (out : List (List ℕ))
      → length out + length starts ≡ 3
      → total_of out ≡ total
      → total ≤ max_total
      → All (λ buf. length buf ≤ max_stream) out
      → IsWithin max_stream max_total
          (read_streams memchr read_gzip max_stream max_total bytes starts total out)
  unfolding read_streams
  read_streams-IsWithin bytes [] total out n e t h =
      three_of-IsWithin max_stream max_total out (omega (arith, n)) h (omega (arith, e, t))
  read_streams-IsWithin bytes (start ∷ starts) total out n e t h =
      let remaining = max_total - total in
      let no_underflow : ltb max_total total ≡ false = ground (arith, t) in
      elim (Option-cases (read_gzip (drop start bytes) (suc (min max_stream remaining)))) [
        | inl bad ↦ rw (read_streams, no_underflow, bad) tt
        | inr (buf, read) ↦ elim (Bool-cases (ltb max_stream (length buf))) [
          | inl long ↦ rw (read_streams, no_underflow, read, long) tt
          | inr short ↦ elim (Bool-cases (ltb remaining (length buf))) [
            | inl over ↦ rw (read_streams, no_underflow, read, short, over) tt
            | inr fits ↦
                rw (read_streams, no_underflow, read, short, fits)
                  (read_streams-IsWithin bytes starts (total + length buf) (out ++ buf ∷ [])
                    (omega (arith, n, count_of out buf)) (omega (arith, e, total_of-snoc out buf))
                    (ground (arith, t, fits))
                    (All-snoc (λ b. length b ≤ max_stream) out buf h (ground (arith, short))))
          ]
        ]
      ]

  read_found-IsWithin :
      (bytes all_starts : List ℕ)
      → IsWithin max_stream max_total
          (read_found memchr read_gzip max_stream max_total bytes 3 (first_magics 3 all_starts))
  read_found-IsWithin bytes all_starts = elim (Bool-cases (ltb (length all_starts) 3)) [
    | inl few ↦ rw few tt
    | inr enough ↦ rw enough (
        read_streams-IsWithin bytes (take 3 (take 3 all_starts)) 0 []
          (omega (
            arith,
            length-take_enough 3 (take 3 all_starts)
                (omega (arith, length-take_enough 3 all_starts (ground (arith, enough)))),
          ))
          refl (omega arith) tt)
  ]

  -- With `memchr` giving the first place of a byte, and whatever the decoder gives: asked for three streams,
  -- the split does not panic (no subtraction goes below 0, and no stream is missing where it takes three),
  -- and the streams that it gives are each at most the one limit, and together at most the other.
  pub split_gzip_streams-IsWithin :
      (is_position : (byte : ℕ) (bytes : List ℕ) → memchr byte bytes ≡ position byte bytes)
      (bytes : List ℕ)
      → IsWithin max_stream max_total
          (split_gzip_streams_with_limits memchr read_gzip max_stream max_total bytes 3)
  unfolding split_gzip_streams_with_limits
  split_gzip_streams-IsWithin is_position bytes = elim (Bool-cases (ltb max_total (length bytes))) [
    | inl large ↦ rw large tt
    | inr small ↦
        rw (small, find_gzip_stream_starts-magics memchr is_position bytes 3 (omega arith))
          (read_found-IsWithin bytes (magics 0 bytes))
  ]

take_all : (n : ℕ) (xs : List ℕ) → length xs ≤ n → take n xs ≡ xs
take_all zero [] h = refl
take_all zero (x ∷ xs) h = absurd (omega (arith, h))
take_all (suc n) [] h = refl
take_all (suc n) (x ∷ xs) h = ap (λ l. x ∷ l) (take_all n xs (omega (arith, h)))

module _ (memchr : ℕ → List ℕ → Option ℕ) (read_gzip : List ℕ → ℕ → Option (List ℕ))
    (max_stream max_total : ℕ) where
  -- A stream that is within what is left is taken whole.
  read_streams_one :
      (bytes buf starts : List ℕ) (start total : ℕ) (out : List (List ℕ))
      → ((limit : ℕ) → read_gzip (drop start bytes) limit ≡ some (take limit buf))
      → length buf ≤ max_stream
      → total + length buf ≤ max_total
      → read_streams memchr read_gzip max_stream max_total bytes (start ∷ starts) total out
        ≡ read_streams memchr read_gzip max_stream max_total bytes starts
            (total + length buf)
            (out ++ buf ∷ [])
  unfolding read_streams
  read_streams_one bytes buf starts start total out decodes s t =
      let remaining = max_total - total in
      let no_underflow : ltb max_total total ≡ false = ground (arith, t) in
      let short : ltb max_stream (length buf) ≡ false = ground (arith, s) in
      let fits : ltb remaining (length buf) ≡ false = ground (arith, t) in
      let whole : take (suc (min max_stream remaining)) buf ≡ buf =
        take_all (suc (min max_stream remaining)) buf (ground (arith, s, t)) in
      rw
        (
          read_streams,
          no_underflow,
          decodes (suc (min max_stream remaining)) ∙ ap some whole,
          short,
          fits,
        )
        refl

  -- With `memchr` giving the first place of a byte: if the first three places of the two bytes of gzip are
  -- where the decoder reads three streams, and the package, each stream and the three together are within
  -- the limits, the split gives these streams.
  pub split_gzip_streams_succeeds :
      (is_position : (byte : ℕ) (bytes : List ℕ) → memchr byte bytes ≡ position byte bytes)
      (bytes a b c rest : List ℕ) (i j k : ℕ)
      → magics 0 bytes ≡ i ∷ j ∷ k ∷ rest
      → ((limit : ℕ) → read_gzip (drop i bytes) limit ≡ some (take limit a))
      → ((limit : ℕ) → read_gzip (drop j bytes) limit ≡ some (take limit b))
      → ((limit : ℕ) → read_gzip (drop k bytes) limit ≡ some (take limit c))
      → length bytes ≤ max_total
      → length a ≤ max_stream
      → length b ≤ max_stream
      → length c ≤ max_stream
      → length a + (length b + length c) ≤ max_total
      → split_gzip_streams_with_limits memchr read_gzip max_stream max_total bytes 3 ≡ streams a b c
  unfolding split_gzip_streams_with_limits read_streams
  split_gzip_streams_succeeds is_position bytes a b c rest i j k e f g h s p q r t =
      let small : ltb max_total (length bytes) ≡ false = ground (arith, s) in
      let enough : ltb (length (i ∷ j ∷ k ∷ rest)) 3 ≡ false = ground arith in
      rw (small, find_gzip_stream_starts-magics memchr is_position bytes 3 (omega arith), e, enough)
        (read_streams_one bytes a (j ∷ k ∷ []) i 0 [] f p (omega (arith, t))
          ∙ read_streams_one bytes b (k ∷ []) j (0 + length a) (a ∷ []) g q (omega (arith, t))
          ∙ read_streams_one bytes c [] k ((0 + length a) + length b) (a ∷ b ∷ []) h r
              (omega (arith, t)))
