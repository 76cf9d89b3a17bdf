-- ===== src/Oil/Streams/Magics.antt =====
-- Where the gzip streams start.
use alpenglow.Prelude.{
  ℕ, zero, suc, ◌+◌, ◌-◌, ◌<◌, Bool, true, false, ◌≡◌, refl, sym, ap, ◌∙◌, Option, none, some, List,
  [], ◌∷◌, if◌then◌else◌, ltb, ◌==◌, ◌&&◌, length, get_elem?, drop, take, arith, Bool-cases,
  Option-cases, inl, inr,
}
use mathlib.Core.Option
use mathlib.Core.Option.{some-injective}
use alpenglow.Oil.Streams.{is_second_byte, has_second_byte, Starts, found, not_found, too_few}

-- The first place of a byte: what `memchr` gives.
unfoldable pub position : ℕ → List ℕ → Option ℕ
position byte [] = none
position byte (x ∷ xs) = if x == byte then some 0 else Option.map suc (position byte xs)

abbrev pub starts_stream : List ℕ → Bool
starts_stream (a ∷ b ∷ bytes) = a == 0x1f && b == 0x8b
starts_stream _ = false

-- The places where a stream starts, counted from a number.
unfoldable pub magics : ℕ → List ℕ → List ℕ
magics i [] = []
magics i (a ∷ bytes) =
    let rest = magics (suc i) bytes in if starts_stream (a ∷ bytes) then i ∷ rest else rest

-- The first of them, if there are enough.
abbrev pub first_magics : ℕ → List ℕ → Starts
first_magics count all_starts =
    if ltb (length all_starts) count
    then not_found (too_few (length all_starts))
    else found (take count all_starts)

starts_stream-first :
    (a : ℕ) (bytes : List ℕ)
    → starts_stream (a ∷ bytes) ≡ (a == 0x1f && has_second_byte (a ∷ bytes) 0)
unfolding has_second_byte
starts_stream-first a [] = ground arith
starts_stream-first a (b ∷ bytes) = refl

-- Without the first byte there is none; otherwise it is at its first place, or after it.
magics_first :
    (i a : ℕ) (bytes : List ℕ)
    → (a == 0x1f) ≡ true
    → magics i (a ∷ bytes)
      ≡ (if has_second_byte (a ∷ bytes) 0 then i ∷ magics (suc i) bytes else magics (suc i) bytes)
unfolding magics
magics_first i a bytes h = rw (starts_stream-first a bytes, h) refl

magics_later :
    (i a : ℕ) (bytes : List ℕ) → (a == 0x1f) ≡ false → magics i (a ∷ bytes) ≡ magics (suc i) bytes
unfolding magics
magics_later i a bytes h = rw (starts_stream-first a bytes, h) refl

pub magics-none : (i : ℕ) (bytes : List ℕ) → position 0x1f bytes ≡ none → magics i bytes ≡ []
unfolding position magics
magics-none i [] h = refl
magics-none i (a ∷ bytes) h = elim (Bool-cases (a == 0x1f)) [
  | inl first ↦ cc (rw first at h)
  | inr other ↦ elim (Option-cases (position 0x1f bytes)) [
    | inl e ↦ magics_later i a bytes other ∙ magics-none (suc i) bytes e
    | inr (p, e) ↦ cc (rw (other, e) at h)
  ]
]

-- The places from the first of the bytes 0x1f on.
abbrev pub at_place : List ℕ → ℕ → ℕ → List ℕ
at_place bytes pos i =
    let rest = magics (suc i) (drop (suc pos) bytes) in
    if has_second_byte bytes pos then i ∷ rest else rest

abbrev magics_at : ℕ → List ℕ → ℕ → List ℕ
magics_at i bytes pos = at_place bytes pos (i + pos)

magics_at_zero :
    (i a : ℕ) (bytes : List ℕ) (pos : ℕ)
    → (a == 0x1f) ≡ true
    → 0 ≡ pos
    → magics i (a ∷ bytes) ≡ magics_at i (a ∷ bytes) pos
magics_at_zero i a bytes pos h e =
    let same : i ≡ i + 0 = omega arith in
    magics_first i a bytes h ∙ ap (at_place (a ∷ bytes) 0) same ∙ ap (magics_at i (a ∷ bytes)) e

magics_at_later :
    (i a : ℕ) (bytes : List ℕ) (pos : ℕ)
    → magics_at (suc i) bytes pos ≡ magics_at i (a ∷ bytes) (suc pos)
unfolding has_second_byte
magics_at_later i a bytes pos =
    let same : suc i + pos ≡ i + suc pos = omega arith in ap (at_place bytes pos) same

magics-some :
    (i : ℕ) (bytes : List ℕ) (pos : ℕ)
    → position 0x1f bytes ≡ some pos
    → (magics i bytes ≡ magics_at i bytes pos) × (pos < length bytes)
unfolding position
magics-some i [] pos h = cc
magics-some i (a ∷ bytes) pos h = elim (Bool-cases (a == 0x1f)) [
  | inl first ↦
      let zero_is : 0 ≡ pos = some-injective _ _ (rw first at h) in
      (magics_at_zero i a bytes pos first zero_is, omega (arith, zero_is))
  | inr other ↦ elim (Option-cases (position 0x1f bytes)) [
    | inl e ↦ cc (rw (other, e) at h)
    | inr (p, e) ↦
        let suc_is : suc p ≡ pos = some-injective _ _ (rw (other, e) at h) in
        let (found_at, is_short) = magics-some (suc i) bytes p e in
        (
          magics_later i a bytes other
              ∙ found_at
              ∙ magics_at_later i a bytes p
              ∙ ap (magics_at i (a ∷ bytes)) suc_is,
          omega (arith, suc_is, is_short),
        )
  ]
]

drop-nil : (n : ℕ) → drop {A = ℕ} n [] ≡ []
drop-nil zero = refl
drop-nil (suc n) = refl

suc_add : (n m : ℕ) → suc (n + m) ≡ suc n + m
suc_add n m = omega arith

drop-drop : (n m : ℕ) (bytes : List ℕ) → drop m (drop n bytes) ≡ drop (n + m) bytes
drop-drop zero m bytes = ap (λ k. drop k bytes) (omega arith)
drop-drop (suc n) m [] = drop-nil m ∙ sym (drop-nil (suc n + m))
drop-drop (suc n) m (x ∷ bytes) = drop-drop n m bytes ∙ ap (λ k. drop k (x ∷ bytes)) (suc_add n m)

get_elem?-drop : (n i : ℕ) (bytes : List ℕ) → get_elem? (drop n bytes) i ≡ get_elem? bytes (n + i)
get_elem?-drop zero i bytes = ap (get_elem? bytes) (omega arith)
get_elem?-drop (suc n) i [] = refl
get_elem?-drop (suc n) i (x ∷ bytes) =
    get_elem?-drop n i bytes ∙ ap (get_elem? (x ∷ bytes)) (suc_add n i)

length-drop : (n : ℕ) (bytes : List ℕ) → length (drop n bytes) ≡ length bytes - n
length-drop zero bytes = omega arith
length-drop (suc n) [] = omega arith
length-drop (suc n) (x ∷ bytes) = length-drop n bytes ∙ omega arith

second_byte-drop :
    (n i : ℕ) (bytes : List ℕ) → has_second_byte (drop n bytes) i ≡ has_second_byte bytes (n + i)
unfolding has_second_byte
second_byte-drop n i bytes =
    let same : n + suc i ≡ suc (n + i) = omega arith in
    ap is_second_byte (get_elem?-drop n (suc i) bytes ∙ ap (get_elem? bytes) same)

-- A round of the loop: the places from the offset on, in the whole of the bytes.
pub magics_from :
    (bytes : List ℕ) (offset pos : ℕ)
    → position 0x1f (drop offset bytes) ≡ some pos
    → (magics offset (drop offset bytes) ≡ at_place bytes (offset + pos) (offset + pos))
      × (offset + pos < length bytes)
magics_from bytes offset pos h =
    let (at_pos, is_short) = magics-some offset (drop offset bytes) pos h in
    let same : offset + suc pos ≡ suc (offset + pos) = omega arith in
    (
      at_pos ∙ rw (drop-drop offset (suc pos) bytes, second_byte-drop offset pos bytes, same) refl,
      omega (arith, is_short, length-drop offset bytes),
    )
