-- ===== src/Shell/Events.antt =====
-- The event loop: whatever happens to the page next, in whatever order the browser chooses. An
-- event that cannot happen in a state (its handler is not registered, or nothing waits for it)
-- leaves the state alone.
use alpenglow.Prelude.{ℕ, zero, suc, ◌==◌, Text, Bool, Option, none, some, any, if◌then◌else◌}
use alpenglow.Prelude.{List, [], ◌∷◌}
use alpenglow.Double.{Double}
use alpenglow.Shell.State.{
  Shell, Page, View, Platform, mounting, awaiting_build_id, importing, uncaught, fetching_version,
  fetching_release, text, Listener, window_resize, terminal_data, host_pointerdown, serial_output,
  download_progress, download_error, emulator_ready, form_submit, pre_keydown, terminal_focused,
  emit,
}
use alpenglow.Shell.Release.{ReleaseReply, version_arrived, release_arrived}
use alpenglow.Shell.BuildId.{Reply, settle_build_id}
use alpenglow.Shell.Screen.{apply_terminal_scale, status_timeout}
use alpenglow.Shell.Keyboard.{KeyEvent, key_down, submit, send_serial}
use alpenglow.Shell.Boot.{
  Progress, load, terminal_mounted, import_library, start_emulator, fail, serial_byte, progressed,
  download_failed, ready,
}

pub data Event (W : Type 0) : Type 0 where
  -- the fetches of `applyReleaseLink` and of `buildIdPromise` settle
  version_reply build_id_reply : Reply → Event W
  release_reply : ReleaseReply → Event W
  -- `init()` settles, with the message of an error if it rejects
  init_settled : Option Text → Event W
  -- `import(libv86Url)` settles; then `new V86` may throw
  import_failed : Text → Event W
  import_done : Option Text → Event W
  -- handlers
  resized_to : View W → Event W
  typed : Text → Event W
  pointer_pressed : Event W
  byte_arrived : ℕ → Event W
  progress_made : Progress W → Event W
  download_broke : Event W
  emulator_started : Event W
  form_submitted : Event W
  key_pressed : KeyEvent → Event W
  timeout : Event W

abbrev pub code_of : Listener → ℕ
code_of window_resize = 0
code_of terminal_data = 1
code_of host_pointerdown = 2
code_of serial_output = 3
code_of download_progress = 4
code_of download_error = 5
code_of emulator_ready = 6
code_of form_submit = 7
code_of pre_keydown = 8

abbrev pub same_listener : Listener → Listener → Bool
same_listener a b = code_of a == code_of b

abbrev pub listens : Listener → List Listener → Bool
listens l = any (same_listener l)

module _ {W : Type 0} where
  -- The handler runs if it is registered.
  abbrev pub on : Listener → (Shell W → Shell W) → Shell W → Shell W
  on l handler s = if listens l s.listeners then handler s else s

  abbrev focus_terminal : Shell W → Shell W
  focus_terminal s = elim s.term [ none ↦ s | some _ ↦ emit terminal_focused s ]

module _ {W : Type 0} ⦃d : Double W⦄ where
  -- What waits for `buildIdPromise`.
  after_build_id : Shell W → Shell W
  after_build_id s = elim s.phase [ awaiting_build_id ↦ import_library s | _ ↦ s ]

  unfoldable pub settle : Reply → Shell W → Shell W
  unfolding after_build_id
  settle reply s = if s.build_id_settled then s else after_build_id (settle_build_id reply s)

  -- What waits for `import(libv86Url)`.
  after_import : (Shell W → Shell W) → Shell W → Shell W
  after_import next s = elim s.phase [ importing ↦ next s | _ ↦ s ]

  unfoldable pub on_version : Reply → Shell W → Shell W
  on_version reply s = elim s.release [ fetching_version ↦ version_arrived reply s | _ ↦ s ]

  on_release : ReleaseReply → Shell W → Shell W
  on_release reply s = elim s.release [ fetching_release ↦ release_arrived reply s | _ ↦ s ]

module _ {W : Type 0} ⦃d : Double W⦄ (platform : Platform W) where
  -- What waits for `init()`.
  after_init : Option Text → Shell W → Shell W
  after_init error s = elim s.phase [
    | mounting ↦ elim error [
      | none ↦ terminal_mounted platform s
      | some _ ↦ record s { phase = uncaught }
    ]
    | _ ↦ s
  ]

  on_timeout : Shell W → Shell W
  on_timeout s = elim s.timers [ zero ↦ s | suc n ↦ status_timeout platform s ]

  unfoldable pub step : Event W → Shell W → Shell W
  unfolding after_init settle after_import on_version on_release on_timeout
  step (version_reply reply) s = on_version reply s
  step (build_id_reply reply) s = settle reply s
  step (release_reply reply) s = on_release reply s
  step (init_settled error) s = after_init error s
  step (import_failed message) s = after_import (fail message) s
  step (import_done error) s = after_import (start_emulator platform error) s
  -- the window has its new size whether or not the script follows it
  step (resized_to view) s =
      on window_resize (apply_terminal_scale platform) (record s { view = view })
  step (typed t) s = on terminal_data (send_serial (text t)) s
  step pointer_pressed s = on host_pointerdown focus_terminal s
  step (byte_arrived byte) s = on serial_output (serial_byte byte) s
  step (progress_made e) s = on download_progress (λ s. record s { page = progressed e s.page }) s
  step download_broke s = on download_error download_failed s
  step emulator_started s = on emulator_ready (ready platform) s
  step form_submitted s = on form_submit submit s
  step (key_pressed event) s = on pre_keydown (key_down platform event) s
  step timeout s = on_timeout s

  -- The state after a sequence of events.
  unfoldable pub run : List (Event W) → Shell W → Shell W
  run [] s = s
  run (e ∷ es) s = run es (step e s)

  -- The states that a page may come to.
  pub data Reach (page : Page W) : Shell W → Type 0 where
    loaded : (view : View W) → Reach page (load platform page view)
    later : {s : Shell W} (e : Event W) → Reach page s → Reach page (step e s)

  pub Reach-run :
      {page : Page W} (es : List (Event W)) {s : Shell W} → Reach page s → Reach page (run es s)
  unfolding run
  Reach-run [] r = r
  Reach-run (e ∷ es) r = Reach-run es (later e r)
