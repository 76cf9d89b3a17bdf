-- ===== src/Shell/Keyboard.antt =====
-- `sendSerial` (lines 79-81) and `wireLegacyKeyboard` (lines 194-236): the keyboard of the
-- fallback, a `<pre>` with a form for command lines.
pub mod Keys
use alpenglow.Prelude.{
  ℕ, ◌-◌, Text, String, units, Bool, true, false, ◌&&◌, ◌||◌, Option, none, some,
}
use alpenglow.Prelude.{List, [], ◌∷◌, ◌++◌, text_eq, text_le, any, if◌then◌else◌}
use mathlib.Core.Option
use alpenglow.Shell.State.{Shell, Page, Pre, Platform, SerialData, text, inherited}
use alpenglow.Shell.State.{Listener, form_submit, pre_keydown, Effect, serial_sent}
use alpenglow.Shell.State.{legacy_focused, default_prevented, emit, listen, with_page}
use alpenglow.Shell.Screen.{loading_text}

pub record KeyEvent : Type 0 where
  pub key : Text
  pub ctrl_key : Bool
  pub meta_key : Bool
  pub alt_key : Bool

-- What the handler of a key does with it.
pub data KeyAction : Type 0 where
  ignore : KeyAction
  send : SerialData → KeyAction

-- The members that an object literal inherits from `Object.prototype`; each is truthy.
pub object_members : List Text
object_members =
    units "constructor"
    ∷ units "__defineGetter__"
    ∷ units "__defineSetter__"
    ∷ units "hasOwnProperty"
    ∷ units "__lookupGetter__"
    ∷ units "__lookupSetter__"
    ∷ units "isPrototypeOf"
    ∷ units "propertyIsEnumerable"
    ∷ units "toString"
    ∷ units "valueOf"
    ∷ units "__proto__"
    ∷ units "toLocaleString"
    ∷ []

-- `keys[event.key]`
pub lookup_key : Text → Option SerialData
unfolding object_members
lookup_key key =
    if text_eq key (units "Enter")
    then some (text (13 ∷ []))
    else if text_eq key (units "Backspace")
    then some (text (127 ∷ []))
    else if text_eq key (units "Tab")
    then some (text (9 ∷ []))
    else if any (text_eq key) object_members
    then some (inherited key)
    else none

-- `charCodeAt(0)`, of a text that is not empty
abbrev pub first_unit : Text → ℕ
first_unit [] = 0
first_unit (c ∷ t) = c

-- Lines 218-222, on the key in lower case. A text between "a" and "z" is not empty.
pub control_action : Text → KeyAction
control_action key =
    if text_le (units "a") key && text_le key (units "z")
    then send (text ((first_unit key - 96) ∷ []))
    else ignore

-- Lines 231-234.
pub character_action : Text → KeyAction
character_action (c ∷ []) = send (text (c ∷ []))
character_action [] = ignore
character_action (c ∷ d ∷ t) = ignore

pub plain_action : Text → KeyAction
unfolding lookup_key character_action
plain_action key = elim (lookup_key key) [ none ↦ character_action key | some found ↦ send found ]

pub key_action : (Text → Text) → KeyEvent → KeyAction
unfolding control_action plain_action
key_action lower_case event =
    if event.meta_key || event.alt_key
    then ignore
    else if event.ctrl_key
    then control_action (lower_case event.key)
    else plain_action event.key

abbrev reveal : Pre → Pre
reveal p = record p { hidden = false; display = units "block"; content = loading_text ++ 10 ∷ [] }

module _ {W : Type 0} where
  unfoldable pub send_serial : SerialData → Shell W → Shell W
  send_serial data' s = elim s.emulator [ none ↦ s | some _ ↦ emit (serial_sent data') s ]

  pub perform : KeyAction → Shell W → Shell W
  unfolding send_serial
  perform ignore s = s
  perform (send data') s = emit default_prevented (send_serial data' s)

  unfoldable pub key_down : Platform W → KeyEvent → Shell W → Shell W
  unfolding perform
  key_down platform event s = perform (key_action platform.lower_case event) s

  -- Lines 203-211: the line is sent with a carriage return, and the input is emptied.
  unfoldable pub submit : Shell W → Shell W
  unfolding send_serial
  submit s =
      let line : Text = elim s.page.command_input [ none ↦ [] | some line ↦ line ] in
      let cleared = record s {
        page = record (s.page) { command_input = Option.map (λ _. []) s.page.command_input };
        log = default_prevented ∷ s.log;
      } in
      emit legacy_focused (send_serial (text (line ++ 13 ∷ [])) cleared)

  -- Lines 203 and 213: the two handlers; there is no form handler without a form.
  listen_legacy : Shell W → Shell W
  listen_legacy s = elim s.page.command_form [
    | none ↦ listen pre_keydown s
    | some _ ↦ listen pre_keydown (listen form_submit s)
  ]

  unfoldable pub wire_legacy_keyboard : Shell W → Shell W
  unfolding loading_text listen_legacy
  wire_legacy_keyboard s = elim s.page.legacy_pre [
    | none ↦ s
    | some p ↦
        listen_legacy
          (emit legacy_focused (with_page (λ page. record page { legacy_pre = some (reveal p) }) s))
  ]
