-- ===== src/Prelude/Strings.antt =====
-- JavaScript strings: lists of UTF-16 code units, with the methods of `String.prototype` that
-- the sources call.
use Prim.Native.Nat.{ℕ, ◌<◌}
use Prim.Native.Char.{code}
use Prim.Native.String.{String}
use mathlib.Core.Path.{◌≡◌, refl}
use mathlib.Core.Logic.{◌↔◌}
use mathlib.Core.Bool.{Bool, true, false, ◌&&◌, ◌||◌}
use mathlib.Core.Option.{Option, none, some}
use mathlib.Core.List.{List, [], ◌∷◌, reverse}
use native.Mathlib.Omega.{arith}
use alpenglow.Prelude.Tests.{◌==◌, leb, if◌then◌else◌}
use alpenglow.Prelude.Lists.{drop_while, All}

abbrev pub Text : Type 0
Text = List ℕ

-- The code units of a literal. Every literal of the sources is within the Basic Multilingual
-- Plane, where a character is one code unit.
abbrev pub units : String → Text
units String.[] = []
units (String.◌∷◌ c s) = code c ∷ units s

-- `===`
abbrev pub text_eq : Text → Text → Bool
text_eq [] [] = true
text_eq [] (_ ∷ _) = false
text_eq (_ ∷ _) [] = false
text_eq (a ∷ s) (b ∷ t) = (a == b) && text_eq s t

-- `<=` compares code units from the left; a proper prefix comes first.
abbrev pub text_le : Text → Text → Bool
text_le [] t = true
text_le (_ ∷ _) [] = false
text_le (a ∷ s) (b ∷ t) = if a == b then text_le s t else leb a b

pub text_eq_iff : (s t : Text) → (text_eq s t ≡ true) ↔ (s ≡ t)
text_eq_iff [] [] = (λ _. refl, λ _. refl)
text_eq_iff [] (b ∷ t) = (λ h. cc, λ h. cc)
text_eq_iff (a ∷ s) [] = (λ h. cc, λ h. cc)
text_eq_iff (a ∷ s) (b ∷ t) = ground (arith, text_eq_iff s t)

-- WhiteSpace and LineTerminator of ECMAScript, which `trim` removes.
pub is_space : ℕ → Bool
is_space c =
    (leb 9 c && leb c 13)
    || c == 32
    || c == 0xa0
    || c == 0x1680
    || (leb 0x2000 c && leb c 0x200a)
    || c == 0x2028
    || c == 0x2029
    || c == 0x202f
    || c == 0x205f
    || c == 0x3000
    || c == 0xfeff

pub trim_start : Text → Text
trim_start t = drop_while is_space t

pub trim_end : Text → Text
trim_end t = reverse (drop_while is_space (reverse t))

unfoldable pub trim : Text → Text
unfolding trim_start trim_end is_space
trim t = trim_end (trim_start t)

-- What follows the prefix, if the text begins with it.
abbrev pub strip_prefix : Text → Text → Option Text
strip_prefix [] t = some t
strip_prefix (_ ∷ _) [] = none
strip_prefix (p ∷ ps) (c ∷ t) = if p == c then strip_prefix ps t else none

-- Every code unit fits 16 bits.
abbrev pub IsText : Text → Type 0
IsText = All (λ c. c < 0x10000)

-- `a || b` on texts
abbrev pub or_text : Text → Text → Text
or_text [] other = other
or_text (c ∷ t) other = c ∷ t
