-- ===== src/Oil/Find/Naive.antt =====
-- The search is that of each place in turn.
use mathlib.Core.Path.{subst}
use mathlib.Core.Option
use mathlib.Core.Option.{some-injective}
use alpenglow.Prelude.{
  ℕ, zero, suc, ◌+◌, ◌-◌, ◌<◌, ◌≤◌, ◌==◌, leb, ltb, Bool, true, false, ◌&&◌, ◌||◌, ◌≡◌, refl, sym,
  ap, ◌∙◌, Option, none, some, List, [], ◌∷◌, if◌then◌else◌, length, take, drop, arith, Bool-cases,
  Option-cases, inl, inr,
}
use alpenglow.Oil.Download.{ascii_lower}
use alpenglow.Oil.Index.{slice}
use alpenglow.Oil.Find.{
  ascii_upper, eq_ignore_ascii_case, search_from, contains_ignore_ascii_case, match_there,
  match_window,
}
use alpenglow.Oil.Find.Slices.{
  drop-drop, length-drop, slice-within, position_lem, leb-true, leb-false, ltb-true,
}

-- The text begins with the needle, without regard to the case of ASCII letters.
abbrev pub begins_with : List ℕ → List ℕ → Bool
begins_with [] t = true
begins_with (n ∷ needle) [] = false
begins_with (n ∷ needle) (c ∷ t) = ascii_lower c == ascii_lower n && begins_with needle t

-- It does at one of its places.
abbrev pub has : List ℕ → List ℕ → Bool
has needle [] = begins_with needle []
has needle (c ∷ t) = begins_with needle (c ∷ t) || has needle t

-- The first place of one of two bytes: what `memchr2` gives.
unfoldable pub position2 : ℕ → ℕ → List ℕ → Option ℕ
position2 a b [] = none
position2 a b (x ∷ xs) = if x == a || x == b then some 0 else Option.map suc (position2 a b xs)

same_letter :
    (c n : ℕ) → (c == ascii_lower n || c == ascii_upper n) ≡ (ascii_lower c == ascii_lower n)
same_letter c n = ground arith

begins_with-short : (needle t : List ℕ) → length t < length needle → begins_with needle t ≡ false
begins_with-short [] t h = absurd (omega (arith, h))
begins_with-short (n ∷ needle) [] h = refl
begins_with-short (n ∷ needle) (c ∷ t) h = ground (arith, begins_with-short needle t)

has-short : (needle t : List ℕ) → length t < length needle → has needle t ≡ false
has-short needle [] h = begins_with-short needle [] h
has-short needle (c ∷ t) h =
    let here = begins_with-short needle (c ∷ t) h in
    let later = has-short needle t (omega (arith, h)) in rw (here, later) refl

eq_ignore-begins_with :
    (tail t : List ℕ)
    → length tail ≤ length t
    → eq_ignore_ascii_case (take (length tail) t) tail ≡ begins_with tail t
eq_ignore-begins_with [] t h = refl
eq_ignore-begins_with (n ∷ tail) [] h = absurd (omega (arith, h))
eq_ignore-begins_with (n ∷ tail) (c ∷ t) h = ground (arith, eq_ignore-begins_with tail t)

suc_of_none : (o : Option ℕ) → Option.map suc o ≡ none → o ≡ none
suc_of_none none h = refl
suc_of_none (some i) h = cc

suc_of_some :
    (o : Option ℕ) (i : ℕ) → Option.map suc o ≡ some i → (j : ℕ) × (i ≡ suc j) × (o ≡ some j)
suc_of_some none i h = cc
suc_of_some (some j) i h = (j, sym (some-injective _ _ h), refl)

module _ (first : ℕ) (tail : List ℕ) where
  -- Without one of the two bytes in the window there is no place.
  has-none :
      (k : ℕ) (s : List ℕ)
      → length s ≡ k + length tail
      → position2 (ascii_lower first) (ascii_upper first) (take k s) ≡ none
      → has (first ∷ tail) s ≡ false
  unfolding position2
  has-none zero s h e = has-short (first ∷ tail) s (omega (arith, h))
  has-none (suc k) [] h e = absurd (omega (arith, h))
  has-none (suc k) (c ∷ t) h e =
      elim (Bool-cases (c == ascii_lower first || c == ascii_upper first)) [
        | inl here ↦ cc (rw here at e)
        | inr other ↦
            let later = has-none k t (omega (arith, h)) (suc_of_none _ (rw other at e)) in
            let differs : (ascii_lower c == ascii_lower first) ≡ false =
              sym (same_letter c first) ∙ other in
            rw (differs, later) refl
      ]

  -- The search comes to the place, in the window, and there it depends on what follows.
  abbrev Passes : ℕ → ℕ → List ℕ → Type 0
  Passes k i s =
      (i < k)
      × (has (first ∷ tail) s
          ≡ (begins_with tail (drop (suc i) s) || has (first ∷ tail) (drop (suc i) s)))

  -- What is before the first of the two bytes is passed over.
  has-some :
      (k i : ℕ) (s : List ℕ)
      → length s ≡ k + length tail
      → position2 (ascii_lower first) (ascii_upper first) (take k s) ≡ some i
      → Passes k i s
  unfolding position2
  has-some zero i s h e = cc
  has-some (suc k) i [] h e = absurd (omega (arith, h))
  has-some (suc k) i (c ∷ t) h e =
      elim (Bool-cases (c == ascii_lower first || c == ascii_upper first)) [
        | inl here ↦
            let same : (ascii_lower c == ascii_lower first) ≡ true =
              sym (same_letter c first) ∙ here in
            let at_start : 0 ≡ i = some-injective _ _ (rw here at e) in
            subst (λ i. Passes (suc k) i (c ∷ t)) at_start (omega arith, rw same refl)
        | inr other ↦
            let differs : (ascii_lower c == ascii_lower first) ≡ false =
              sym (same_letter c first) ∙ other in
            let (j, is_next, found) = suc_of_some _ i (rw other at e) in
            let (within, later) = has-some k j t (omega (arith, h)) found in
            rw (differs, is_next) (omega (arith, within), later)
      ]

choose-or : (b c : Bool) → (if b then some true else some c) ≡ some (b || c)
choose-or true c = refl
choose-or false c = refl

-- The comparison of the tail at a place, when the rest is searched rightly.
match_there-has :
    (haystack : List ℕ) (first : ℕ) (tail : List ℕ) (place : ℕ) (later : Option Bool)
    → place + length tail ≤ length haystack
    → later ≡ some (has (first ∷ tail) (drop place haystack))
    → match_there tail (slice place (place + length tail) haystack) later
      ≡ some (begins_with tail (drop place haystack) || has (first ∷ tail) (drop place haystack))
match_there-has haystack first tail place later room h =
    let rest = drop place haystack in
    let enough : length tail ≤ length rest = omega (arith, room, length-drop place haystack) in
    let wide : place + length tail - place ≡ length tail = omega arith in
    rw
      (
        slice-within place (place + length tail) haystack (omega arith) room,
        wide,
        eq_ignore-begins_with tail rest enough,
        h,
      )
      (choose-or (begins_with tail rest) (has (first ∷ tail) rest))

module _ (memchr2 : ℕ → ℕ → List ℕ → Option ℕ)
    (is_position : (a b : ℕ) (xs : List ℕ) → memchr2 a b xs ≡ position2 a b xs) (haystack : List ℕ)
    (first : ℕ) (tail : List ℕ) where
  in_window :
      (fuel pos : ℕ)
      → pos + suc (length tail) ≤ length haystack
      → ((i : ℕ)
          → search_from memchr2 fuel haystack first tail (pos + i + 1)
            ≡ some (has (first ∷ tail) (drop (pos + i + 1) haystack)))
      → match_window memchr2 haystack first tail pos
          (search_from memchr2 fuel haystack first tail)
          (slice pos (length haystack - suc (length tail) + 1) haystack)
        ≡ some (has (first ∷ tail) (drop pos haystack))
  in_window fuel pos room later =
      let to = length haystack - suc (length tail) + 1 in
      let s = drop pos haystack in
      let k = to - pos in
      let size : length s ≡ k + length tail = omega (arith, room, length-drop pos haystack) in
      let window = slice-within pos to haystack (omega (arith, room)) (omega (arith, room)) in
      rw (window, is_position (ascii_lower first) (ascii_upper first) (take k s))
        (elim (Option-cases (position2 (ascii_lower first) (ascii_upper first) (take k s))) [
          | inl e ↦ rw (e, has-none first tail k s size e) refl
          | inr (i, e) ↦
              let (within, split) = has-some first tail k i s size e in
              let place = pos + i + 1 in
              let rest = search_from memchr2 fuel haystack first tail place in
              let ends : pos + i + suc (length tail) ≡ place + length tail = omega arith in
              let drops : drop (suc i) s ≡ drop place haystack =
                drop-drop pos (suc i) haystack ∙ ap (λ n. drop n haystack) (position_lem pos i) in
              rw e (
                ap (λ n. match_there tail (slice place n haystack) rest) ends
                ∙ match_there-has haystack first tail place rest (omega (arith, room, within))
                    (later i)
                ∙ ap (λ t. some (begins_with tail t || has (first ∷ tail) t)) (sym drops)
                ∙ ap some (sym split))
        ])

  search_from-has :
      (fuel pos : ℕ)
      → length haystack - pos < fuel
      → search_from memchr2 fuel haystack first tail pos
        ≡ some (has (first ∷ tail) (drop pos haystack))
  unfolding search_from
  search_from-has zero pos f = absurd (omega (arith, f))
  search_from-has (suc fuel) pos f =
      elim (Bool-cases (leb (pos + suc (length tail)) (length haystack))) [
        | inr past ↦
            let short = has-short (first ∷ tail) (drop pos haystack) (
              omega (
                arith,
                length-drop pos haystack,
                leb-false (pos + suc (length tail)) (length haystack) past,
              )) in
            rw (search_from, past, short) refl
        | inl room ↦
            let fits = leb-true (pos + suc (length tail)) (length haystack) room in
            rw (search_from, room)
              (in_window fuel pos fits
                λ i. search_from-has fuel (pos + i + 1) (omega (arith, f, fits)))
      ]

has-nil : (t : List ℕ) → has [] t ≡ true
has-nil [] = refl
has-nil (c ∷ t) = refl

-- With `memchr2` giving the first place of one of two bytes: the search ends without a panic, and finds
-- the needle if and only if it stands at one of the places of the text, where the case of ASCII letters
-- does not count.
pub contains_ignore_ascii_case-eq-has :
    (memchr2 : ℕ → ℕ → List ℕ → Option ℕ)
    (is_position : (a b : ℕ) (xs : List ℕ) → memchr2 a b xs ≡ position2 a b xs)
    (haystack needle : List ℕ)
    → contains_ignore_ascii_case memchr2 haystack needle ≡ some (has needle haystack)
unfolding contains_ignore_ascii_case
contains_ignore_ascii_case-eq-has memchr2 is_position haystack [] = ap some (sym (has-nil haystack))
contains_ignore_ascii_case-eq-has memchr2 is_position haystack (first ∷ tail) =
    elim (Bool-cases (ltb (length haystack) (suc (length tail)))) [
      | inl long ↦
          rw
            (
              long,
              has-short (first ∷ tail) haystack
                  (ltb-true (length haystack) (suc (length tail)) long),
            )
            refl
      | inr short ↦ rw short (
          search_from-has memchr2 is_position haystack first tail (suc (length haystack)) 0
            (omega arith))
    ]
