-- ===== src/Prelude/Trim.antt =====
-- `String.prototype.trim`: what it removes and what it keeps.
use alpenglow.Prelude.{Text, ◌≡◌, refl, sym, ap, ◌∙◌, Bool, true, not, List, [], ◌∷◌}
use alpenglow.Prelude.{◌++◌, reverse, reverse-append, reverse-reverse, arith}
use alpenglow.Prelude.{all, all-append, all-take_while, take_while, drop_while}
use alpenglow.Prelude.{take_while-append-drop_while}
use alpenglow.Prelude.{is_space, trim_start, trim}
use mathlib.Core.List.{reverse-cons}

-- The test fails at the first element, if there is one.
abbrev pub head_fails {ℓ} : {A : Type ℓ} → (A → Bool) → List A → Bool
head_fails p [] = true
head_fails p (x ∷ xs) = not (p x)

module _ {ℓ} {A : Type ℓ} (p : A → Bool) where
  head_fails-drop_while : (xs : List A) → head_fails p (drop_while p xs) ≡ true
  head_fails-drop_while [] = refl
  head_fails-drop_while (x ∷ xs) = ground (arith, head_fails-drop_while xs)

  drop_while_of_head_fails : (xs : List A) → head_fails p xs ≡ true → drop_while p xs ≡ xs
  drop_while_of_head_fails [] h = refl
  drop_while_of_head_fails (x ∷ xs) h = ground arith

  all-reverse : (xs : List A) → all p (reverse xs) ≡ all p xs
  all-reverse [] = refl
  all-reverse (x ∷ xs) = rw (reverse-cons, all-append) (ground (arith, all-reverse xs))

  -- The suffix that a scan from the end removes.
  unfoldable pub drop_end : List A → List A
  drop_end xs = reverse (drop_while p (reverse xs))

  pub taken_end : List A → List A
  taken_end xs = reverse (take_while p (reverse xs))

  pub drop_end-append-taken_end : (xs : List A) → drop_end xs ++ taken_end xs ≡ xs
  unfolding drop_end taken_end
  drop_end-append-taken_end xs =
      sym (reverse-append (take_while p (reverse xs)) (drop_while p (reverse xs)))
      ∙ ap reverse (take_while-append-drop_while p (reverse xs))
      ∙ reverse-reverse xs

  pub all-taken_end : (xs : List A) → all p (taken_end xs) ≡ true
  unfolding taken_end
  all-taken_end xs = all-reverse _ ∙ all-take_while p (reverse xs)

  pub head_fails-reverse-drop_end : (xs : List A) → head_fails p (reverse (drop_end xs)) ≡ true
  unfolding drop_end
  head_fails-reverse-drop_end xs = rw reverse-reverse (head_fails-drop_while (reverse xs))

  -- A prefix of a list whose first element fails the test is empty or begins with that element.
  head_fails-prefix : (xs ys : List A) → head_fails p (xs ++ ys) ≡ true → head_fails p xs ≡ true
  head_fails-prefix [] ys h = refl
  head_fails-prefix (x ∷ xs) ys h = h

module _ {ℓ} {A : Type ℓ} (p : A → Bool) where
  drop_while-append : (xs ys : List A) → all p xs ≡ true → drop_while p (xs ++ ys) ≡ drop_while p ys
  drop_while-append [] ys h = refl
  drop_while-append (x ∷ xs) ys h = ground (arith, drop_while-append xs ys)

  -- A suffix of removable elements makes no difference.
  pub drop_end-append : (xs ys : List A) → all p ys ≡ true → drop_end p (xs ++ ys) ≡ drop_end p xs
  unfolding drop_end
  drop_end-append xs ys h =
      ap (λ zs. reverse (drop_while p zs)) (reverse-append xs ys)
      ∙ ap reverse (drop_while-append (reverse ys) (reverse xs) (all-reverse p ys ∙ h))

  pub drop_end_of_all : (xs : List A) → all p xs ≡ true → drop_end p xs ≡ []
  unfolding drop_end
  drop_end_of_all xs h = drop_end-append [] xs h

-- The text without the whitespace at its two ends: nothing else is removed, and neither end of
-- what is left is whitespace.
pub record IsTrimmed (t r : Text) : Type 0 where
  pub before : Text
  pub after : Text
  pub parts : before ++ (r ++ after) ≡ t
  pub before_blank : all is_space before ≡ true
  pub after_blank : all is_space after ≡ true
  pub starts_full : head_fails is_space r ≡ true
  pub ends_full : head_fails is_space (reverse r) ≡ true

-- `trim` removes whitespace at the two ends and nothing else, and leaves no end that is whitespace.
pub trim-IsTrimmed : (t : Text) → IsTrimmed t (trim t)
unfolding trim drop_end
trim-IsTrimmed t =
    let joined = drop_end-append-taken_end is_space (trim_start t) in
    record {
      before = take_while is_space t;
      after = taken_end is_space (trim_start t);
      parts = ap (λ s. take_while is_space t ++ s) joined ∙ take_while-append-drop_while is_space t;
      before_blank = all-take_while is_space t;
      after_blank = all-taken_end is_space (trim_start t);
      starts_full =
          head_fails-prefix is_space (trim t) (taken_end is_space (trim_start t))
            (rw joined (head_fails-drop_while is_space t));
      ends_full = head_fails-reverse-drop_end is_space (trim_start t);
    }

-- A text whose ends are no whitespace is left alone.
trim_of_full :
    (t : Text) → head_fails is_space t ≡ true → head_fails is_space (reverse t) ≡ true → trim t ≡ t
unfolding trim
trim_of_full t h k =
    rw (drop_while_of_head_fails is_space t h, drop_while_of_head_fails is_space (reverse t) k)
      (reverse-reverse t)

-- Trimming a trimmed text again changes nothing.
pub trim_idem : (t : Text) → trim (trim t) ≡ trim t
trim_idem t = let e = trim-IsTrimmed t in trim_of_full (trim t) (e.starts_full) (e.ends_full)
