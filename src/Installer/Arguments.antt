-- ===== src/Installer/Arguments.antt =====
-- The arguments of the installer.
use alpenglow.Prelude.{
  Text, Bool, true, false, ◌||◌, ◌≡◌, refl, ap, ◌∙◌, List, [], ◌∷◌, ◌++◌, if◌then◌else◌, any,
  text_eq, units, append_assoc, append-nil, Bool-cases, inl, inr,
}
use alpenglow.Installer.Command.{split_flags, parse_install_args, parse_installer_args}

abbrev pub is_tui : Text → Bool
is_tui arg = text_eq arg (units "--tui")

-- The arguments that are no flag.
abbrev pub positionals_of : List Text → List Text
positionals_of [] = []
positionals_of (arg ∷ args) =
    let rest = positionals_of args in if is_tui arg then rest else arg ∷ rest

or-true : (b : Bool) → (b || true) ≡ true
or-true true = refl
or-true false = refl

or-false : (b : Bool) → (b || false) ≡ b
or-false true = refl
or-false false = refl

split_flags_lem :
    (args : List Text) (tui : Bool) (positionals : List Text)
    → split_flags args tui positionals
      ≡ (tui || any is_tui args, positionals ++ positionals_of args)
unfolding split_flags
split_flags_lem [] tui positionals = rw (or-false tui, append-nil positionals) refl
split_flags_lem (arg ∷ args) tui positionals = elim (Bool-cases (is_tui arg)) [
  | inl flag ↦
      rw (split_flags, flag) (split_flags_lem args true positionals ∙ rw (or-true tui) refl)
  | inr other ↦
      rw (split_flags, other)
        (split_flags_lem args tui (positionals ++ arg ∷ [])
          ∙ rw (append_assoc positionals (arg ∷ []) (positionals_of args)) refl)
]

-- The flag is found wherever it stands, and however often; the first of the other arguments is the
-- source and the second the target.
pub parse_installer_args_lem :
    (args : List Text)
    → parse_installer_args args ≡ (any is_tui args, parse_install_args (positionals_of args))
unfolding parse_installer_args
parse_installer_args_lem args =
    ap (λ flags. (flags.0, parse_install_args flags.1)) (split_flags_lem args false [])
