-- ===== src/Oil/Find/Slices.antt =====
-- Parts of a list, and the tests of the search as inequalities.
use alpenglow.Prelude.{
  ℕ, zero, suc, ◌+◌, ◌-◌, ◌<◌, ◌≤◌, leb, ltb, true, false, ◌≡◌, refl, sym, ap, ◌∙◌, some, List, [],
  ◌∷◌, length, take, drop, arith,
}
use alpenglow.Oil.Index.{slice}
use alpenglow.Oil.Find.{}

pub drop-nil : (n : ℕ) → drop {A = ℕ} n [] ≡ []
drop-nil zero = refl
drop-nil (suc n) = refl

pub suc_add : (n m : ℕ) → suc (n + m) ≡ suc n + m
suc_add n m = omega arith

pub drop-drop : (n m : ℕ) (xs : List ℕ) → drop m (drop n xs) ≡ drop (n + m) xs
drop-drop zero m xs = ap (λ k. drop k xs) (omega arith)
drop-drop (suc n) m [] = drop-nil m ∙ sym (drop-nil (suc n + m))
drop-drop (suc n) m (x ∷ xs) = drop-drop n m xs ∙ ap (λ k. drop k (x ∷ xs)) (suc_add n m)

pub length-drop : (n : ℕ) (xs : List ℕ) → length (drop n xs) ≡ length xs - n
length-drop zero xs = omega arith
length-drop (suc n) [] = omega arith
length-drop (suc n) (x ∷ xs) = omega (arith, length-drop n xs)

pub slice-within :
    (from to : ℕ) (xs : List ℕ)
    → from ≤ to
    → to ≤ length xs
    → slice from to xs ≡ some (take (to - from) (drop from xs))
unfolding slice
slice-within from to xs h l =
    let low : leb from to ≡ true = ground arith in
    let high : leb to (length xs) ≡ true = ground arith in rw (low, high) refl

pub position_lem : (pos i : ℕ) → pos + suc i ≡ pos + i + 1
position_lem pos i = omega arith

pub leb-true : (a b : ℕ) → leb a b ≡ true → a ≤ b
leb-true a b h = ground arith

pub leb-false : (a b : ℕ) → leb a b ≡ false → b < a
leb-false a b h = ground arith

pub ltb-true : (a b : ℕ) → ltb a b ≡ true → a < b
ltb-true a b h = ground arith
