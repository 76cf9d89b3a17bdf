-- ===== src/Shell/Boot.antt =====
-- The body of the module (lines 39-51 and 238-311): what runs at once, and what runs after each
-- `await`, the `catch` block included; then the handlers that it registers on the emulator.
use alpenglow.Prelude.{
  ℕ, ◌*◌, ◌==◌, Text, units, Bool, true, false, not, Option, none, some, [], ◌∷◌,
}
use alpenglow.Prelude.{◌++◌, ◌&&◌, if◌then◌else◌}
use mathlib.Core.Option
use alpenglow.Double.{Double, number, truthy}
use alpenglow.Shell.State.{
  Shell, Page, Pre, View, Platform, mounting, awaiting_build_id, importing, running, uncaught,
  failed, finished, EmulatorConfig, fetched, imported, emulator_created, terminal_focused,
  legacy_scrolled, error_logged, serial_output, download_progress, download_error, emulator_ready,
  emit, listen, with_page,
}
use alpenglow.Shell.Release.{start_release}
use alpenglow.Shell.BuildId.{initial_build_id, asset, libv86_url}
use alpenglow.Shell.Status.{set_status, current_progress}
use alpenglow.Shell.Metrics.{terminal_size}
use alpenglow.Shell.Screen.{write, line_end, mount_begin, mount_end, finish_status}
use alpenglow.Shell.Screen.{apply_terminal_scale}
use alpenglow.Shell.Keyboard.{wire_legacy_keyboard}

build_id_url : Text
build_id_url = units "/v86/initrd-build-id.txt"

unfoldable pub loading_message : Text
loading_message = units "loading Alpenglow"

-- A binding of `Option`, for the calls of `asset`, which may throw.
infixl 5 ◌>>=◌
abbrev ◌>>=◌ : {A B : Type 0} → Option A → (A → Option B) → Option B
none >>= k = none
some a >>= k = k a

-- The argument of `new V86`; `none` is the URIError of an `asset`.
unfoldable pub emulator_config : Text → Text → Option EmulatorConfig
emulator_config build_id cmdline = do
  wasm_path ← asset build_id (units "/v86/v86.wasm")
  bios ← asset build_id (units "/v86/seabios.bin")
  vga_bios ← asset build_id (units "/v86/vgabios.bin")
  bzimage ← asset build_id (units "/v86/alpenglow-v86-vmlinuz")
  initrd ← asset build_id (units "/v86/alpenglow-v86-initrd.cpio.gz")
  some (record {
    wasm_path = wasm_path;
    bios_url = bios;
    vga_bios_url = vga_bios;
    bzimage_url = bzimage;
    initrd_url = initrd;
    cmdline = cmdline;
    memory_size = 256 * 1024 * 1024;
    autostart = true;
  })

-- The fields of a "download-progress" event that are read.
pub record Progress (W : Type 0) : Type 0 where
  pub length_computable : Bool
  pub loaded : W
  pub total : W
  pub file_index : W
  pub file_count : W

abbrev extend : Text → Pre → Pre
extend t p = record p { content = p.content ++ t }

module _ {W : Type 0} ⦃d : Double W⦄ where
  initial : Page W → View W → Shell W
  initial page view = record {
    page = page;
    view = view;
    release = finished;
    build_id = initial_build_id;
    build_id_settled = false;
    emulator = none;
    term = none;
    fit_addon = false;
    emulator_ready = false;
    use_xterm = false;
    cmdline = [];
    phase = mounting;
    listeners = [];
    timers = 0;
    log = [];
  }

  -- Lines 238-243, up to `await init()`.
  start_body : Shell W → Shell W
  start_body s = elim s.page.screen [
    | none ↦ record s { phase = uncaught }
    | some _ ↦ mount_begin (with_page (set_status loading_message (number 0)) s)
  ]

  -- Line 246.
  cmdline_of : W × W → Text
  cmdline_of (cols, rows) =
      units "console=ttyS0 rdinit=/init quiet loglevel=2 alpenglow.cols="
      ++ (d.to_text cols ++ (units " alpenglow.rows=" ++ d.to_text rows))

  -- Line 250, after `await buildIdPromise`.
  unfoldable pub import_library : Shell W → Shell W
  import_library s = emit (imported libv86_url) (record s { phase = importing })

  await_build_id : Shell W → Shell W
  unfolding import_library
  await_build_id s =
      if s.build_id_settled then import_library s else record s { phase = awaiting_build_id }

  append_to_pre : Text → Page W → Page W
  append_to_pre t page = record page { legacy_pre = Option.map (extend t) page.legacy_pre }

  -- The `catch` block (lines 303-310), with the message of the error.
  unfoldable pub fail : Text → Shell W → Shell W
  unfolding append_to_pre
  fail message s =
      let shown =
        with_page
          (λ page.
            append_to_pre (units "\nAlpenglow failed to start: " ++ (message ++ 10 ∷ []))
              (set_status (units "failed: " ++ message) (current_progress page) page))
          s in
      record (write (13 ∷ 10 ∷ (units "Alpenglow failed to start: " ++ (message ++ line_end)))
        shown) { phase = failed message }

  -- Lines 264-302.
  add_listeners : Shell W → Shell W
  add_listeners s =
      let outputs = listen serial_output s in
      let keyboard = if not s.use_xterm then wire_legacy_keyboard outputs else outputs in
      record (listen emulator_ready (listen download_error (listen download_progress keyboard))) {
        phase = running;
      }

  -- "serial0-output-byte"
  unfoldable pub serial_byte : ℕ → Shell W → Shell W
  unfolding append_to_pre
  serial_byte byte s = if byte == 0xff then s else elim s.term [
    | some _ ↦ write (byte ∷ []) s
    | none ↦ elim s.page.legacy_pre [
      | none ↦ s
      | some _ ↦ emit legacy_scrolled (with_page (append_to_pre (byte ∷ [])) s)
    ]
  ]

  -- "download-progress"
  percent_of : Progress W → W
  percent_of e =
      d.mul (d.div (d.add e.file_index (d.div e.loaded e.total)) e.file_count) (number 100)

  unfoldable pub progressed : Progress W → Page W → Page W
  unfolding percent_of
  progressed e page =
      if e.length_computable && truthy e.total
      then set_status
          (units "loading Alpenglow " ++ (d.to_text (d.round (percent_of e)) ++ units "%"))
          (percent_of e) page
      else set_status loading_message (current_progress page) page

  -- "download-error"
  unfoldable pub download_failed : Shell W → Shell W
  download_failed s = emit (error_logged (units "v86 download error")) (
      with_page (λ page. set_status (units "failed to load Alpenglow") (current_progress page) page)
        s)

module _ {W : Type 0} ⦃d : Double W⦄ (platform : Platform W) where
  -- The module up to its first `await`.
  unfoldable pub load : Page W → View W → Shell W
  unfolding initial start_body build_id_url
  load page view = start_body (emit (fetched build_id_url) (start_release (initial page view)))

  -- `await init()` is over: the rest of `mountTerminal`, and lines 245-249.
  unfoldable pub terminal_mounted : Shell W → Shell W
  unfolding await_build_id cmdline_of
  terminal_mounted s =
      let mounted = mount_end platform s in
      await_build_id (record mounted { cmdline = cmdline_of (terminal_size mounted.view) })

  -- Lines 252-302, once the library is there. `new V86` may throw an error of its own.
  unfoldable pub start_emulator : Option Text → Shell W → Shell W
  unfolding add_listeners
  start_emulator error s = elim (emulator_config s.build_id s.cmdline) [
    | none ↦ fail platform.uri_error s
    | some config ↦ elim error [
      | some message ↦ fail message s
      | none ↦ add_listeners (emit (emulator_created config) (record s { emulator = some config }))
    ]
  ]

  -- "emulator-ready"
  unfoldable pub ready : Shell W → Shell W
  ready s =
      let finished_loading =
        finish_status (units "booting alpenglow shell") (record s { emulator_ready = true }) in
      let scaled = apply_terminal_scale platform finished_loading in
      elim scaled.term [ none ↦ scaled | some _ ↦ emit terminal_focused scaled ]
