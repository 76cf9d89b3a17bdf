-- ===== src/Oil/Parse/Names.antt =====
-- The name in a token is read again as itself.
use alpenglow.Prelude.{
  ℕ, Text, Bool, true, false, not, ◌≡◌, refl, sym, ap, ◌∙◌, List, [], ◌∷◌, all, all-append,
  take_while, all-take_while, drop_while, reverse, reverse-append, reverse-reverse, arith,
  Bool-cases, inl, inr,
}
use alpenglow.Oil.Str.{is_whitespace, str_trim, or_whole, first_token}
use alpenglow.Oil.FilePath.{extend}
use alpenglow.Oil.Package.{is_version_mark, parse_dep_name}
use alpenglow.Oil.Parse.{split_on, filled, split_whitespace}

abbrev pub is_black : ℕ → Bool
is_black c = not (is_whitespace c)

-- A token without whitespace.
abbrev pub is_token : Text → Bool
is_token t = all is_black t

take_while-all : (p : ℕ → Bool) (t : Text) → all p t ≡ true → take_while p t ≡ t
take_while-all p [] h = refl
take_while-all p (c ∷ t) h = ground (arith, take_while-all p t)

drop_while_none : (p : ℕ → Bool) (t : Text) → all (λ c. not (p c)) t ≡ true → drop_while p t ≡ t
drop_while_none p [] h = refl
drop_while_none p (c ∷ t) h = let here : p c ≡ false = ground arith in rw here refl

all-reverse : (p : ℕ → Bool) (t : Text) → all p t ≡ true → all p (reverse t) ≡ true
all-reverse p [] h = refl
all-reverse p (c ∷ t) h =
    ap (all p) (reverse-append (c ∷ []) t)
    ∙ all-append p (reverse t) (c ∷ [])
    ∙ rw (all-reverse p t (ground arith)) (ground arith)

str_trim-is_token : (t : Text) → is_token t ≡ true → str_trim t ≡ t
unfolding str_trim
str_trim-is_token t h =
    ap (λ s. reverse (drop_while is_whitespace (reverse s))) (drop_while_none is_whitespace t h)
    ∙ ap reverse (drop_while_none is_whitespace (reverse t) (all-reverse is_black t h))
    ∙ reverse-reverse t

first_token-is_token : (t : Text) → is_token t ≡ true → first_token t ≡ t
unfolding first_token
first_token-is_token [] h = refl
first_token-is_token (c ∷ t) h =
    ap (λ s. or_whole (take_while is_black s) (c ∷ t)) (drop_while_none is_whitespace (c ∷ t) h)
    ∙ ap (λ s. or_whole s (c ∷ t)) (take_while-all is_black (c ∷ t) h)

all-take_while_of : (p q : ℕ → Bool) (t : Text) → all p t ≡ true → all p (take_while q t) ≡ true
all-take_while_of p q [] h = refl
all-take_while_of p q (c ∷ t) h = ground (arith, all-take_while_of p q t)

abbrev before_mark : Text → Text
before_mark t = take_while (λ c. not (is_version_mark c)) t

parse_dep_name-is_token : (t : Text) → is_token t ≡ true → parse_dep_name t ≡ before_mark t
unfolding parse_dep_name
parse_dep_name-is_token t h =
    ap (λ s. str_trim (before_mark s)) (first_token-is_token t h)
    ∙ str_trim-is_token (before_mark t)
        (all-take_while_of is_black (λ c. not (is_version_mark c)) t h)

pub parse_dep_name_idem :
    (t : Text) → is_token t ≡ true → parse_dep_name (parse_dep_name t) ≡ parse_dep_name t
parse_dep_name_idem t h =
    let black = all-take_while_of is_black (λ c. not (is_version_mark c)) t h in
    ap parse_dep_name (parse_dep_name-is_token t h)
    ∙ parse_dep_name-is_token (before_mark t) black
    ∙ take_while-all (λ c. not (is_version_mark c)) (before_mark t)
        (all-take_while (λ c. not (is_version_mark c)) t)
    ∙ sym (parse_dep_name-is_token t h)

extend-are_tokens :
    (c : ℕ) (ts : List Text)
    → is_whitespace c ≡ false
    → all is_token ts ≡ true
    → all is_token (extend c ts) ≡ true
extend-are_tokens c [] h k = rw h refl
extend-are_tokens c (t ∷ ts) h k = rw h k

split_on-are_tokens : (t : Text) → all is_token (split_on is_whitespace t) ≡ true
unfolding split_on
split_on-are_tokens [] = refl
split_on-are_tokens (c ∷ t) = elim (Bool-cases (is_whitespace c)) [
  | inl white ↦ rw white (split_on-are_tokens t)
  | inr black ↦
      rw black (extend-are_tokens c (split_on is_whitespace t) black (split_on-are_tokens t))
]

filled-are_tokens : (ts : List Text) → all is_token ts ≡ true → all is_token (filled ts) ≡ true
filled-are_tokens [] h = refl
filled-are_tokens ([] ∷ ts) h = filled-are_tokens ts h
filled-are_tokens ((c ∷ t) ∷ ts) h = rw (filled-are_tokens ts (ground arith)) (ground arith)

pub split_whitespace-are_tokens : (t : Text) → all is_token (split_whitespace t) ≡ true
unfolding split_whitespace
split_whitespace-are_tokens t = filled-are_tokens (split_on is_whitespace t) (split_on-are_tokens t)
