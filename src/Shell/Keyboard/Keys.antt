-- ===== src/Shell/Keyboard/Keys.antt =====
-- What each key of the fallback sends.
use alpenglow.Prelude.{
  ℕ, ◌+◌, ◌-◌, ◌%◌, ◌≤◌, ◌<◌, Text, units, Bool, true, false, ◌≡◌, ◌⊎◌, refl, inl, inr,
}
use alpenglow.Prelude.{
  length, Option, none, some, [], ◌∷◌, arith, text_eq, text_le, any, if◌then◌else◌, leb, ◌&&◌, ◌||◌,
  map, All, Bool-cases, Option-cases,
}
use alpenglow.Shell.State.{
  Shell, SerialData, text, inherited, Platform, serial_sent, default_prevented,
}
use alpenglow.Shell.Keyboard.{
  KeyEvent, KeyAction, ignore, send, object_members, lookup_key, control_action, character_action,
  plain_action, key_action, send_serial, key_down, perform,
}

-- `toLowerCase` of an ASCII code unit
abbrev pub lower_unit : ℕ → ℕ
lower_unit c = if leb 65 c && leb c 90 then c + 32 else c

abbrev pub IsLetter : ℕ → Type 0
IsLetter c = ((65 ≤ c) × (c ≤ 90)) ⊎ ((97 ≤ c) × (c ≤ 122))

-- On ASCII texts, `toLowerCase` maps the letters A to Z and nothing else.
abbrev pub LowersAscii : (Text → Text) → Type 0
LowersAscii lower = (t : Text) → All (λ c. c < 128) t → lower t ≡ map lower_unit t

abbrev pub key_event : Text → Bool → KeyEvent
key_event key ctrl = record { key = key; ctrl_key = ctrl; meta_key = false; alt_key = false }

control_letter :
    (c : ℕ) → IsLetter c → control_action (lower_unit c ∷ []) ≡ send (text ((c % 32) ∷ []))
unfolding control_action
control_letter c (inl (a, b)) = ground arith
control_letter c (inr (a, b)) = ground arith

-- Where `toLowerCase` lowers the letters A to Z: Ctrl with a letter, in either case, sends the
-- control character of that letter, 1 for A to 26 for Z.
pub key_action-control :
    (lower : Text → Text) (c : ℕ)
    → LowersAscii lower
    → IsLetter c
    → key_action lower (key_event (c ∷ []) true) ≡ send (text ((c % 32) ∷ []))
unfolding key_action
key_action-control lower c laws h = rw (laws (c ∷ []) (ground arith, tt)) (control_letter c h)

lookup_key-unit : (c : ℕ) → lookup_key (c ∷ []) ≡ none
unfolding lookup_key
lookup_key-unit c = ground arith

-- Without a modifier, a key whose name is a single code unit sends that unit.
pub key_action-character :
    (lower : Text → Text) (c : ℕ)
    → key_action lower (key_event (c ∷ []) false) ≡ send (text (c ∷ []))
unfolding key_action plain_action character_action
key_action-character lower c = rw (lookup_key-unit c, plain_action)

-- What Ctrl sends: one control character, 1 to 26.
abbrev pub SendsControl : KeyAction → Type 0
SendsControl ignore = Unit
SendsControl (send (text (k ∷ []))) = (1 ≤ k) × (k ≤ 26)
SendsControl (send (text _)) = ⊥
SendsControl (send (inherited _)) = ⊥

-- A text between "a" and "z" begins with a letter.
letter_first :
    (c : ℕ) (t : Text)
    → (text_le (units "a") (c ∷ t) && text_le (c ∷ t) (units "z")) ≡ true
    → (97 ≤ c) × (c ≤ 122)
letter_first c t h = (ground arith, ground arith)

control_action-SendsControl : (key : Text) → SendsControl (control_action key)
unfolding control_action
control_action-SendsControl [] = tt
control_action-SendsControl (c ∷ t) =
    elim (Bool-cases (text_le (units "a") (c ∷ t) && text_le (c ∷ t) (units "z"))) [
      | inl letter ↦ rw letter (omega (arith, letter_first c t letter))
      | inr other ↦ rw other tt
    ]

-- What a key sends: one code unit, or a member that `keys` inherits.
abbrev pub SendsUnit : KeyAction → Type 0
SendsUnit ignore = Unit
SendsUnit (send (text t)) = length t ≡ 1
SendsUnit (send (inherited _)) = Unit

control-SendsUnit : (key : Text) → SendsUnit (control_action key)
unfolding control_action
control-SendsUnit key = ground arith

abbrev FoundUnit : Option SerialData → Type 0
FoundUnit none = Unit
FoundUnit (some found) = SendsUnit (send found)

lookup_key-FoundUnit : (key : Text) → FoundUnit (lookup_key key)
unfolding lookup_key
lookup_key-FoundUnit key = elim (Bool-cases (text_eq key (units "Enter"))) [
  | inl enter ↦ rw enter refl
  | inr a ↦ elim (Bool-cases (text_eq key (units "Backspace"))) [
    | inl backspace ↦ rw (a, backspace) refl
    | inr b ↦ elim (Bool-cases (text_eq key (units "Tab"))) [
      | inl tab ↦ rw (a, b, tab) refl
      | inr c ↦ elim (Bool-cases (any (text_eq key) object_members)) [
        | inl member ↦ rw (a, b, c, member) tt
        | inr other ↦ rw (a, b, c, other) tt
      ]
    ]
  ]
]

character-SendsUnit : (key : Text) → SendsUnit (character_action key)
unfolding character_action
character-SendsUnit [] = tt
character-SendsUnit (c ∷ []) = refl
character-SendsUnit (c ∷ d ∷ t) = tt

plain-SendsUnit : (key : Text) → SendsUnit (plain_action key)
unfolding plain_action
plain-SendsUnit key = elim (Option-cases (lookup_key key)) [
  | inl missing ↦ rw (missing, plain_action) (character-SendsUnit key)
  | inr (found, e) ↦ rw (e, plain_action) (rw e at (lookup_key-FoundUnit key))
]

-- Whatever the key and the modifiers, what is sent is one code unit, or a member that `keys` inherits
-- from `Object.prototype`.
pub key_action-SendsUnit : (lower : Text → Text) (e : KeyEvent) → SendsUnit (key_action lower e)
unfolding key_action
key_action-SendsUnit lower e = elim (Bool-cases (e.meta_key || e.alt_key)) [
  | inl held ↦ rw held tt
  | inr free ↦ elim (Bool-cases e.ctrl_key) [
    | inl ctrl ↦ rw (free, ctrl) (control-SendsUnit (lower e.key))
    | inr plain ↦ rw (free, plain) (plain-SendsUnit e.key)
  ]
]

-- With Ctrl held, whatever the key and the other modifiers, nothing goes out but one control
-- character from 1 to 26.
pub key_action-SendsControl :
    (lower : Text → Text) (e : KeyEvent) → e.ctrl_key ≡ true → SendsControl (key_action lower e)
unfolding key_action
key_action-SendsControl lower e ctrl = elim (Bool-cases (e.meta_key || e.alt_key)) [
  | inl held ↦ rw held tt
  | inr free ↦ rw (free, ctrl) (control_action-SendsControl (lower e.key))
]

control_action-name :
    (c : ℕ) (t : Text) → 97 ≤ c → c < 122 → control_action (c ∷ t) ≡ send (text ((c - 96) ∷ []))
unfolding control_action
control_action-name c t h k = ground arith

-- Where `toLowerCase` lowers the letters A to Z: Ctrl with a key whose ASCII name begins with one
-- of A to Y sends the control character of that letter, also where the name is longer: the Control
-- key itself, named "Control", sends Ctrl-C, and Enter sends Ctrl-E.
pub key_action-control_name :
    (lower : Text → Text) (c : ℕ) (t : Text)
    → LowersAscii lower
    → All (λ u. u < 128) (c ∷ t)
    → 97 ≤ lower_unit c
    → lower_unit c < 122
    → key_action lower (key_event (c ∷ t) true) ≡ send (text ((lower_unit c - 96) ∷ []))
unfolding key_action
key_action-control_name lower c t laws ascii h k =
    rw (laws (c ∷ t) ascii) (control_action-name (lower_unit c) (map lower_unit t) h k)

module _ {W : Type 0} (platform : Platform W) (s : Shell W) where
  -- Either the key is not one to send, and nothing changes, or it is sent, to the emulator if there is
  -- one, and its default action is prevented; nothing but the log of calls changes.
  pub key_down_lem :
      (e : KeyEvent)
      → ((key_action platform.lower_case e ≡ ignore) × (key_down platform e s ≡ s))
        ⊎ ((sent : SerialData) × (key_action platform.lower_case e ≡ send sent)
            × (key_down platform e s ≡ record s {
              log =
                  default_prevented
                  ∷ elim s.emulator [ none ↦ s.log | some _ ↦ serial_sent sent ∷ s.log ];
            }))
  unfolding key_down send_serial
  key_down_lem e = elim (action-cases (key_action platform.lower_case e)) [
    | inl none_sent ↦ inl (none_sent, rw none_sent refl)
    | inr (sent, h) ↦ inr (sent, h, rw (h, perform) (ground arith))
  ]
    where
      action-cases : (a : KeyAction) → (a ≡ ignore) ⊎ ((sent : SerialData) × (a ≡ send sent))
      action-cases ignore = inl refl
      action-cases (send sent) = inr (sent, refl)
