-- ===== src/Site/Document/Replace.antt =====
-- `String.prototype.replace` with a text pattern.
use alpenglow.Prelude.{
  ◌==◌, Text, Bool, true, false, not, ◌≡◌, refl, ◌&&◌, none, some, [], ◌∷◌, ◌++◌, if◌then◌else◌,
  strip_prefix, all, arith, append-nil,
}
use alpenglow.Site.Document.{find_first, expand, replace}

abbrev pub no_dollar : Text → Bool
no_dollar = all (λ c. not (c == 36))

-- A replacement without dollars is put in as it stands.
expand_of_no_dollar :
    (matched before after r : Text) → no_dollar r ≡ true → expand matched before after r ≡ r
unfolding expand
expand_of_no_dollar m b a [] h = refl
expand_of_no_dollar m b a (c ∷ []) h = refl
expand_of_no_dollar m b a (c ∷ d ∷ t) h = ground (arith, expand_of_no_dollar m b a (d ∷ t))

-- The pattern and the text differ at a place that both have.
abbrev pub disagrees : Text → Text → Bool
disagrees [] t = false
disagrees (p ∷ ps) [] = false
disagrees (p ∷ ps) (c ∷ t) = if p == c then disagrees ps t else true

-- No occurrence of the pattern begins in the text, whatever follows it.
abbrev pub is_clear : Text → Text → Bool
is_clear pattern [] = true
is_clear pattern (c ∷ t) = disagrees pattern (c ∷ t) && is_clear pattern t

strip_prefix-disagrees :
    (pattern x z : Text) → disagrees pattern x ≡ true → strip_prefix pattern (x ++ z) ≡ none
strip_prefix-disagrees [] x z h = cc
strip_prefix-disagrees (p ∷ ps) [] z h = cc
strip_prefix-disagrees (p ∷ ps) (c ∷ t) z h = ground (arith, strip_prefix-disagrees ps t z)

strip_prefix-append : (pattern z : Text) → strip_prefix pattern (pattern ++ z) ≡ some z
strip_prefix-append [] z = refl
strip_prefix-append (p ∷ ps) z = ground (arith, strip_prefix-append ps z)

find_first-here : (pattern z : Text) → find_first pattern (pattern ++ z) ≡ some ([], z)
unfolding find_first
find_first-here [] [] = refl
find_first-here [] (c ∷ z) = refl
find_first-here (p ∷ ps) z = rw (strip_prefix-append (p ∷ ps) z, find_first)

find_first-clear :
    (pattern x z before after : Text)
    → is_clear pattern x ≡ true
    → find_first pattern z ≡ some (before, after)
    → find_first pattern (x ++ z) ≡ some (x ++ before, after)
unfolding find_first
find_first-clear pattern [] z before after h e = e
find_first-clear pattern (c ∷ t) z before after h e =
    ground
      (arith, strip_prefix-disagrees pattern (c ∷ t) z, find_first-clear pattern t z before after)

-- The first occurrence is replaced, and what is around it stays.
pub replace_at :
    (pattern r x z : Text)
    → is_clear pattern x ≡ true
    → no_dollar r ≡ true
    → replace pattern r (x ++ (pattern ++ z)) ≡ x ++ (r ++ z)
unfolding replace
replace_at pattern r x z h k =
    let found = find_first-clear pattern x (pattern ++ z) [] z h (find_first-here pattern z) in
    rw (found, replace) (rw (append-nil, expand_of_no_dollar pattern x z r k))
