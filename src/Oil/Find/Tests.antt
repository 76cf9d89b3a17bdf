-- ===== src/Oil/Find/Tests.antt =====
-- The search for a part of a name.
use alpenglow.Prelude.{true, false, ◌≡◌, refl, some, units}
use alpenglow.Oil.Find.{contains_ignore_ascii_case}
use alpenglow.Oil.Find.Naive.{has, position2, contains_ignore_ascii_case-eq-has}

finds_vim : contains_ignore_ascii_case position2 (units "ViViM-qt") (units "vim") ≡ some true
unfolding contains_ignore_ascii_case position2
finds_vim = refl

misses_emacs : contains_ignore_ascii_case position2 (units "emac") (units "macs") ≡ some false
unfolding contains_ignore_ascii_case position2
misses_emacs = refl

contains_ignore_ascii_case-eq-has_example :
    contains_ignore_ascii_case position2 (units "ViViM-qt") (units "vim")
    ≡ some (has (units "vim") (units "ViViM-qt"))
contains_ignore_ascii_case-eq-has_example =
    contains_ignore_ascii_case-eq-has position2 (λ a b xs. refl) (units "ViViM-qt") (units "vim")
