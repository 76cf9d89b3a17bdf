-- ===== src/Shell/Screen.antt =====
-- The terminal on the page: `applyTerminalScale` (lines 108-120), `mountTerminal` (lines 122-192)
-- and `finishStatus` with its timeout (lines 69-77).
use alpenglow.Prelude.{◌+◌, ◌-◌, Text, String, units, true, false, not, ◌&&◌, none, some}
use alpenglow.Prelude.{List, [], ◌∷◌, ◌++◌, if◌then◌else◌}
use mathlib.Core.Option
use alpenglow.Double.{Double, number, same, truthy}
use alpenglow.Shell.State.{Shell, Page, Pre, Host, TermOptions, Term, Platform, View}
use alpenglow.Shell.State.{window_resize, terminal_data, host_pointerdown}
use alpenglow.Shell.State.{Effect, terminal_created, addon_loaded, fitted, resize_observed, opened}
use alpenglow.Shell.State.{
  resized, terminal_focused, timeout_set, mounting, emit, listen, with_page,
}
use alpenglow.Shell.Status.{set_status}
use alpenglow.Shell.Metrics.{terminal_font_size}

palette : List (String × String)
palette =
    ("background", "#000000")
    ∷ ("foreground", "#e4e4e7")
    ∷ ("cursor", "#fafafa")
    ∷ ("cursorAccent", "#000000")
    ∷ ("selectionBackground", "#3f3f46")
    ∷ ("selectionForeground", "#fafafa")
    ∷ ("black", "#18181b")
    ∷ ("red", "#f87171")
    ∷ ("green", "#4ade80")
    ∷ ("yellow", "#facc15")
    ∷ ("blue", "#60a5fa")
    ∷ ("magenta", "#c084fc")
    ∷ ("cyan", "#22d3ee")
    ∷ ("white", "#e4e4e7")
    ∷ ("brightBlack", "#52525b")
    ∷ ("brightRed", "#fca5a5")
    ∷ ("brightGreen", "#86efac")
    ∷ ("brightYellow", "#fde047")
    ∷ ("brightBlue", "#93c5fd")
    ∷ ("brightMagenta", "#d8b4fe")
    ∷ ("brightCyan", "#67e8f9")
    ∷ ("brightWhite", "#fafafa")
    ∷ []

unfoldable pub loading_text : Text
loading_text = units "Alpenglow loading…"

-- `writeln` ends the line with a carriage return and a line feed.
abbrev pub line_end : Text
line_end = 13 ∷ 10 ∷ []

pub new_host : Host
new_host = record {
  id = units "xterm_host";
  class_name = units "term-host";
  aria_label = units "Alpenglow serial console";
}

abbrev pub hide_pre : Pre → Pre
hide_pre p = record p { hidden = true }

module _ {W : Type 0} where
  abbrev print_on : Text → Term W → Term W
  print_on t r = record r { output = r.output ++ t }

  -- `term.write`, where a terminal stands
  unfoldable pub write : Text → Shell W → Shell W
  write t s = record s { term = Option.map (print_on t) s.term }

  -- Lines 126-131: the fallback elements are hidden.
  hide_fallback : Page W → Page W
  hide_fallback page = record page {
    legacy_pre = Option.map hide_pre page.legacy_pre;
    command_form = Option.map (λ _. true) page.command_form;
  }

  -- Lines 135-142: the element with the id "xterm_host", which is appended where there is none.
  host_of : Page W → Host
  unfolding new_host
  host_of page = elim page.xterm_host [ none ↦ new_host | some host ↦ host ]

  ensure_host : Page W → Page W
  unfolding new_host
  ensure_host page = elim page.xterm_host [
    | none ↦ record page {
      screen = Option.map (λ children. children ++ new_host ∷ []) page.screen;
      xterm_host = some new_host;
    }
    | some host ↦ page
  ]

  -- `mountTerminal` up to `await init()`; without a mount point it returns false.
  unfoldable pub mount_begin : Shell W → Shell W
  unfolding hide_fallback
  mount_begin s = elim s.page.screen [
    | none ↦ record s { use_xterm = false }
    | some _ ↦ record (with_page hide_fallback s) { phase = mounting }
  ]

module _ {W : Type 0} ⦃d : Double W⦄ where
  term_options : View W → TermOptions W
  unfolding terminal_font_size palette
  term_options v = record {
    font_size = terminal_font_size v;
    font_family = "\"Geist Mono\", ui-monospace, monospace";
    cursor_blink = true;
    scrollback = 10000;
    allow_transparency = false;
    theme = palette;
  }

  -- Lines 144-178: the terminal and its add-on.
  create_terminal : Shell W → Shell W
  unfolding term_options ensure_host host_of
  create_terminal s =
      let options = term_options s.view in
      let host = host_of s.page in
      record (with_page ensure_host s) {
        term = some (record { options = options; cols = number 0; rows = number 0; output = [] });
        fit_addon = true;
        log = opened host ∷ addon_loaded ∷ terminal_created options ∷ s.log;
      }

  unfoldable pub finish_status : Text → Shell W → Shell W
  unfolding set_status
  finish_status message s =
      emit (timeout_set 700)
        (record (with_page (set_status message (number 100)) s) { timers = s.timers + 1 })

module _ {W : Type 0} ⦃d : Double W⦄ (platform : Platform W) where
  -- The terminal after lines 112-119.
  rescale : View W → Term W → Term W
  unfolding terminal_font_size
  rescale v t =
      let font = terminal_font_size v in
      let changed = platform.has_options && not (same t.options.font_size font) in
      let size = if changed then font else t.options.font_size in
      record t {
        options = record (t.options) { font_size = size };
        cols = platform.fit_cols v size;
        rows = platform.fit_rows v size;
      }

  -- The calls of lines 116-119 on it.
  log_rescale : Term W → List (Effect W) → List (Effect W)
  log_rescale t log =
      if platform.has_resize && truthy t.cols && truthy t.rows
      then resized t.cols t.rows ∷ fitted ∷ log
      else fitted ∷ log

  unfoldable pub apply_terminal_scale : Shell W → Shell W
  unfolding rescale log_rescale
  apply_terminal_scale s = elim s.term [
    | none ↦ s
    | some t ↦
        if s.fit_addon
        then record s { term = some (rescale s.view t); log = log_rescale (rescale s.view t) s.log }
        else s
  ]

  -- Lines 179-186, after which the window's size is followed.
  scale_and_follow : Shell W → Shell W
  unfolding apply_terminal_scale
  scale_and_follow s =
      let scaled = apply_terminal_scale s in
      listen window_resize
        (if platform.has_observe_resize then emit resize_observed scaled else scaled)

  -- Lines 187-190.
  greet : Shell W → Shell W
  unfolding write loading_text
  greet s =
      listen host_pointerdown
        (listen terminal_data (emit terminal_focused (write (loading_text ++ line_end) s)))

  -- The rest of `mountTerminal`, which returns true.
  unfoldable pub mount_end : Shell W → Shell W
  unfolding create_terminal scale_and_follow greet
  mount_end s = record (greet (scale_and_follow (create_terminal s))) { use_xterm = true }

  -- The callback of the timeout.
  unfoldable pub status_timeout : Shell W → Shell W
  unfolding apply_terminal_scale
  status_timeout s = apply_terminal_scale (record s {
    timers = s.timers - 1;
    page = record (s.page) { boot_status = Option.map (λ _. true) s.page.boot_status };
  })
