-- ===== src/Shell/State.antt =====
-- The state of the script: the elements of the page that it looks up (lines 3-10), its
-- module variables, and the objects of the terminal library and of the emulator that it holds.
use alpenglow.Prelude.{ℕ, Text, String, Bool, Option, List, ◌∷◌}

-- `<meter>`: its value, and its text content
pub record Meter (W : Type 0) : Type 0 where
  pub value : W
  pub label : Text

-- `<pre id="terminal">`
pub record Pre : Type 0 where
  pub hidden : Bool
  pub display : Text
  pub content : Text

pub record Link : Type 0 where
  pub label : Text
  pub href : Text

pub record Host : Type 0 where
  pub id : Text
  pub class_name : Text
  pub aria_label : Text

-- The elements, `none` where `getElementById` returns null. Of an element that is only hidden or
-- shown the value is its `hidden`; of `#screen_container` it is what the script appends to it, and
-- of `#command_input` the text typed into it.
pub record Page (W : Type 0) : Type 0 where
  pub boot_status : Option Bool
  pub boot_message : Option Text
  pub boot_progress : Option (Meter W)
  pub screen : Option (List Host)
  pub legacy_pre : Option Pre
  pub command_form : Option Bool
  pub command_input : Option Text
  pub release_link : Option Link
  -- the element with the id "xterm_host"
  pub xterm_host : Option Host

-- The size of the window.
pub record View (W : Type 0) : Type 0 where
  pub inner_width : W
  pub inner_height : W

-- The options of `new Terminal` (lines 144-174).
pub record TermOptions (W : Type 0) : Type 0 where
  pub font_size : W
  pub font_family : String
  pub cursor_blink : Bool
  pub scrollback : ℕ
  pub allow_transparency : Bool
  pub theme : List (String × String)

-- The terminal as the script sees it: the font size among its options, its size in cells, and
-- the text written to it.
pub record Term (W : Type 0) : Type 0 where
  pub options : TermOptions W
  pub cols : W
  pub rows : W
  pub output : Text

-- The argument of `new V86` (lines 252-262).
pub record EmulatorConfig : Type 0 where
  pub wasm_path : Text
  pub bios_url : Text
  pub vga_bios_url : Text
  pub bzimage_url : Text
  pub initrd_url : Text
  pub cmdline : Text
  pub memory_size : ℕ
  pub autostart : Bool

-- What `sendSerial` is given: a text, or a member that `keys` inherits from `Object.prototype`.
pub data SerialData : Type 0 where
  text : Text → SerialData
  inherited : Text → SerialData

-- The handlers that the script registers.
pub data Listener : Type 0 where
  window_resize terminal_data host_pointerdown : Listener
  serial_output download_progress download_error emulator_ready : Listener
  form_submit pre_keydown : Listener

-- Calls that leave the script, with their arguments.
pub data Effect (W : Type 0) : Type 0 where
  fetched : Text → Effect W
  imported : Text → Effect W
  terminal_created : TermOptions W → Effect W
  addon_loaded fitted resize_observed : Effect W
  opened : Host → Effect W
  resized : W → W → Effect W
  terminal_focused legacy_focused legacy_scrolled default_prevented : Effect W
  emulator_created : EmulatorConfig → Effect W
  serial_sent : SerialData → Effect W
  timeout_set : ℕ → Effect W
  error_logged : Text → Effect W

-- Where `applyReleaseLink` waits.
pub data ReleaseTask : Type 0 where
  fetching_version fetching_release finished : ReleaseTask

-- Where the module body waits, or how it ended. `failed` holds the message of the error that the
-- `catch` block shows and throws again; `uncaught` is an error outside the `try` block.
pub data Phase : Type 0 where
  mounting awaiting_build_id importing running uncaught : Phase
  failed : Text → Phase

pub record Shell (W : Type 0) : Type 0 where
  pub page : Page W
  pub view : View W
  pub release : ReleaseTask
  pub build_id : Text
  -- whether `buildIdPromise` is settled
  pub build_id_settled : Bool
  pub emulator : Option EmulatorConfig
  pub term : Option (Term W)
  pub fit_addon : Bool
  pub emulator_ready : Bool
  pub use_xterm : Bool
  pub cmdline : Text
  pub phase : Phase
  pub listeners : List Listener
  -- timeouts that are set and have not fired
  pub timers : ℕ
  -- the calls so far, the latest first
  pub log : List (Effect W)

module _ {W : Type 0} where
  abbrev pub emit : Effect W → Shell W → Shell W
  emit e s = record s { log = e ∷ s.log }

  abbrev pub listen : Listener → Shell W → Shell W
  listen l s = record s { listeners = l ∷ s.listeners }

  abbrev pub with_page : (Page W → Page W) → Shell W → Shell W
  with_page f s = record s { page = f s.page }

-- What the script uses of code that is not in the repository, and of its engine.
pub record Platform (W : Type 0) : Type 0 where
  -- ghostty-web: whether a terminal has `options` and a `resize` method, whether the add-on has
  -- `observeResize`, and the cells that `fit` chooses for a window and a font size
  pub has_options : Bool
  pub has_resize : Bool
  pub has_observe_resize : Bool
  pub fit_cols : View W → W → W
  pub fit_rows : View W → W → W
  -- the message of the URIError that `encodeURIComponent` throws
  pub uri_error : Text
  -- `toLowerCase`
  pub lower_case : Text → Text
