-- ===== src/Shell/Legacy.antt =====
-- The keyboard fallback of `wireLegacyKeyboard` and when it is wired.
use alpenglow.Prelude.{Text, Bool, true, false, ◌≡◌, Option, none, some, arith}
use alpenglow.Double.{Double}
use alpenglow.Shell.State.{
  Shell, Page, View, Platform, Phase, mounting, awaiting_build_id, importing, running, uncaught,
  failed, form_submit, pre_keydown,
}
use alpenglow.Shell.Keyboard.{KeyEvent, send_serial}
use alpenglow.Shell.Screen.{
  write, mount_end, apply_terminal_scale, status_timeout, mount_begin, finish_status,
}
use alpenglow.Shell.Boot.{
  load, terminal_mounted, import_library, start_emulator, fail, ready, serial_byte, download_failed,
}
use alpenglow.Shell.BuildId.{Reply, settle_build_id}
use alpenglow.Shell.Release.{start_release, version_arrived, release_arrived}
use alpenglow.Shell.Events

-- `mountTerminal` has returned.
abbrev pub mounted : Phase → Bool
mounted mounting = false
mounted uncaught = false
mounted awaiting_build_id = true
mounted importing = true
mounted running = true
mounted (failed _) = true

pub record IsUnwired {W : Type 0} (s : Shell W) : Type 0 where
  pub no_keys : Events.listens pre_keydown s.listeners ≡ false
  pub no_form : Events.listens form_submit s.listeners ≡ false
  pub with_terminal : mounted s.phase ≡ true → s.use_xterm ≡ true

module _ {W : Type 0} ⦃d : Double W⦄ (platform : Platform W) where
  load-IsUnwired : (page : Page W) (view : View W) → IsUnwired (load platform page view)
  unfolding load start_release mount_begin
  load-IsUnwired page view = ground arith

  scale-IsUnwired : (s : Shell W) → IsUnwired s → IsUnwired (apply_terminal_scale platform s)
  unfolding apply_terminal_scale
  scale-IsUnwired s v = ground arith

  terminal_mounted-IsUnwired : (s : Shell W) → IsUnwired s → IsUnwired (terminal_mounted platform s)
  unfolding terminal_mounted mount_end apply_terminal_scale
  terminal_mounted-IsUnwired s v = ground arith

  fail-IsUnwired :
      (m : Text) (s : Shell W) → IsUnwired s → mounted s.phase ≡ true → IsUnwired (fail m s)
  unfolding fail write
  fail-IsUnwired m s v p = ground arith

  start_emulator-IsUnwired :
      (error : Option Text) (s : Shell W)
      → IsUnwired s
      → mounted s.phase ≡ true
      → IsUnwired (start_emulator platform error s)
  unfolding start_emulator
  start_emulator-IsUnwired none s v p = ground (arith, fail-IsUnwired platform.uri_error s v p)
  start_emulator-IsUnwired (some m) s v p =
      ground (arith, fail-IsUnwired platform.uri_error s v p, fail-IsUnwired m s v p)

  ready-IsUnwired : (s : Shell W) → IsUnwired s → IsUnwired (ready platform s)
  unfolding ready finish_status apply_terminal_scale
  ready-IsUnwired s v = ground arith

  version_arrived-IsUnwired :
      (reply : Reply) (s : Shell W) → IsUnwired s → IsUnwired (Events.on_version reply s)
  unfolding Events.on_version version_arrived
  version_arrived-IsUnwired reply s v = ground arith

  settle-IsUnwired : (reply : Reply) (s : Shell W) → IsUnwired s → IsUnwired (Events.settle reply s)
  unfolding Events.settle settle_build_id import_library
  settle-IsUnwired reply s v = ground arith

  step-IsUnwired :
      (e : Events.Event W) (s : Shell W) → IsUnwired s → IsUnwired (Events.step platform e s)
  unfolding Events.step
  step-IsUnwired (Events.version_reply reply) s v = version_arrived-IsUnwired reply s v
  step-IsUnwired (Events.build_id_reply reply) s v = settle-IsUnwired reply s v
  step-IsUnwired (Events.release_reply reply) s v = unfold release_arrived in ground arith
  step-IsUnwired (Events.init_settled error) s v = ground (arith, terminal_mounted-IsUnwired s v)
  step-IsUnwired (Events.import_failed m) s v = ground (arith, fail-IsUnwired m s v)
  step-IsUnwired (Events.import_done error) s v = ground (arith, start_emulator-IsUnwired error s v)
  step-IsUnwired (Events.resized_to view) s v = ground (
    arith,
    scale-IsUnwired (record s { view = view })
        (record { no_keys = v.no_keys; no_form = v.no_form; with_terminal = v.with_terminal }),
  )
  step-IsUnwired (Events.typed t) s v = unfold send_serial in ground arith
  step-IsUnwired Events.pointer_pressed s v = ground arith
  step-IsUnwired (Events.byte_arrived b) s v = unfold serial_byte write in ground arith
  step-IsUnwired (Events.progress_made e) s v = ground arith
  step-IsUnwired Events.download_broke s v = unfold download_failed in ground arith
  step-IsUnwired Events.emulator_started s v = ground (arith, ready-IsUnwired s v)
  step-IsUnwired Events.form_submitted s v = ground arith
  step-IsUnwired (Events.key_pressed k) s v = ground arith
  step-IsUnwired Events.timeout s v = unfold status_timeout apply_terminal_scale in ground arith

  pub Reach-IsUnwired : {page : Page W} {s : Shell W} → Events.Reach platform page s → IsUnwired s
  Reach-IsUnwired {page} (Events.loaded view) = load-IsUnwired page view
  Reach-IsUnwired (Events.later {s} e r) = step-IsUnwired e s (Reach-IsUnwired r)

  -- In every state of a run, a pressed key and a submitted form change nothing: neither handler of
  -- the fallback is ever registered.
  pub step_fallback :
      {page : Page W} {s : Shell W} (k : KeyEvent)
      → Events.Reach platform page s
      → (Events.step platform (Events.key_pressed k) s ≡ s)
        × (Events.step platform Events.form_submitted s ≡ s)
  unfolding Events.step
  step_fallback k r = ground (arith, Reach-IsUnwired r)
