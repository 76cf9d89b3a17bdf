-- ===== src/Oil/Str.antt =====
-- The methods of Rust's `str` that system/oil/src calls, on lists of code points.
use alpenglow.Prelude.{
  ℕ, ◌==◌, leb, Text, Bool, not, ◌&&◌, ◌||◌, [], ◌∷◌, reverse, drop_while, take_while,
}

-- `char::is_whitespace`
unfoldable pub is_whitespace : ℕ → Bool
is_whitespace c =
    (leb 9 c && leb c 13)
    || c == 32
    || c == 0x85
    || c == 0xa0
    || c == 0x1680
    || (leb 0x2000 c && leb c 0x200a)
    || c == 0x2028
    || c == 0x2029
    || c == 0x202f
    || c == 0x205f
    || c == 0x3000

-- `trim`
unfoldable pub str_trim : Text → Text
unfolding is_whitespace
str_trim t = reverse (drop_while is_whitespace (reverse (drop_while is_whitespace t)))

abbrev pub or_whole : Text → Text → Text
or_whole [] whole = whole
or_whole (c ∷ t) whole = c ∷ t

-- `dep.split_whitespace().next().unwrap_or(dep)`
unfoldable pub first_token : Text → Text
unfolding is_whitespace
first_token t = or_whole (take_while (λ c. not (is_whitespace c)) (drop_while is_whitespace t)) t
