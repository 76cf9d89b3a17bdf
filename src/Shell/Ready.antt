-- ===== src/Shell/Ready.antt =====
-- The end of the loading: what the emulator's readiness and the timer of `finishStatus` do to the page.
use alpenglow.Prelude.{Text, units, true, false, ◌≡◌, Option, none, some, [], ◌∷◌, arith}
use mathlib.Core.Option
use alpenglow.Double.{Double, number}
use alpenglow.Double.Laws.{IsDouble}
use alpenglow.Shell.State.{Shell, Page, View, Platform, running}
use alpenglow.Shell.BuildId.{Reply, settle_build_id}
use alpenglow.Shell.Release.{start_release, version_arrived, release_arrived}
use alpenglow.Shell.Status.{set_status, show_percent}
use alpenglow.Shell.Keyboard.{wire_legacy_keyboard, send_serial, submit, key_down}
use alpenglow.Shell.Screen.{
  write, mount_begin, mount_end, apply_terminal_scale, finish_status, status_timeout,
}
use alpenglow.Shell.Boot.{
  load, terminal_mounted, import_library, start_emulator, fail, ready, serial_byte, progressed,
  download_failed,
}
use alpenglow.Shell.Invariant.{IsBooted, Reach-IsBooted}
use alpenglow.Shell.Events.{
  Event, version_reply, build_id_reply, release_reply, init_settled, import_failed, import_done,
  resized_to, typed, pointer_pressed, byte_arrived, progress_made, download_broke, emulator_started,
  form_submitted, key_pressed, timeout, step, run, settle, on_version, Reach, loaded, later,
}

module _ {W : Type 0} ⦃d : Double W⦄ (platform : Platform W) (page : Page W) where
  -- The status is as it was on the page until the emulator is ready.
  abbrev IsWaiting : Shell W → Type 0
  IsWaiting s = s.emulator_ready ≡ false → s.page.boot_status ≡ page.boot_status

  load-IsWaiting : (view : View W) → IsWaiting (load platform page view)
  unfolding load start_release mount_begin set_status
  load-IsWaiting view = ground arith

  mounted-IsWaiting : (s : Shell W) → IsWaiting s → IsWaiting (terminal_mounted platform s)
  unfolding terminal_mounted mount_end apply_terminal_scale
  mounted-IsWaiting s v = ground arith

  fail-IsWaiting : (m : Text) (s : Shell W) → IsWaiting s → IsWaiting (fail m s)
  unfolding fail write set_status
  fail-IsWaiting m s v = ground arith

  start_emulator-IsWaiting :
      (error : Option Text) (s : Shell W)
      → IsWaiting s
      → IsWaiting (start_emulator platform error s)
  unfolding start_emulator wire_legacy_keyboard
  start_emulator-IsWaiting none s v = ground (arith, fail-IsWaiting platform.uri_error s v)
  start_emulator-IsWaiting (some m) s v =
      ground (arith, fail-IsWaiting platform.uri_error s v, fail-IsWaiting m s v)

  ready-IsWaiting : (s : Shell W) → IsWaiting (ready platform s)
  unfolding ready finish_status apply_terminal_scale
  ready-IsWaiting s = ground arith

  settle-IsWaiting : (reply : Reply) (s : Shell W) → IsWaiting s → IsWaiting (settle reply s)
  unfolding settle settle_build_id import_library
  settle-IsWaiting reply s v = ground arith

  version-IsWaiting : (reply : Reply) (s : Shell W) → IsWaiting s → IsWaiting (on_version reply s)
  unfolding on_version version_arrived
  version-IsWaiting reply s v = ground arith

  step-IsWaiting :
      (e : Event W) (s : Shell W) → IsWaiting s → IsBooted s → IsWaiting (step platform e s)
  unfolding step
  step-IsWaiting (version_reply reply) s v b = version-IsWaiting reply s v
  step-IsWaiting (build_id_reply reply) s v b = settle-IsWaiting reply s v
  step-IsWaiting (release_reply reply) s v b = unfold release_arrived in ground arith
  step-IsWaiting (init_settled error) s v b = ground (arith, mounted-IsWaiting s v)
  step-IsWaiting (import_failed m) s v b = ground (arith, fail-IsWaiting m s v)
  step-IsWaiting (import_done error) s v b = ground (arith, start_emulator-IsWaiting error s v)
  step-IsWaiting (resized_to view) s v b = unfold apply_terminal_scale in ground arith
  step-IsWaiting (typed t) s v b = unfold send_serial in ground arith
  step-IsWaiting pointer_pressed s v b = ground arith
  step-IsWaiting (byte_arrived c) s v b = unfold serial_byte write in ground arith
  step-IsWaiting (progress_made e) s v b = unfold progressed set_status in ground arith
  step-IsWaiting download_broke s v b = unfold download_failed set_status in ground arith
  step-IsWaiting emulator_started s v b = ground (arith, ready-IsWaiting s)
  step-IsWaiting form_submitted s v b = unfold submit send_serial in ground arith
  step-IsWaiting (key_pressed k) s v b = unfold key_down send_serial in ground arith
  step-IsWaiting timeout s v b =
      unfold status_timeout apply_terminal_scale in ground (arith, b.timed)

  Reach-IsWaiting : {s : Shell W} → Reach platform page s → IsWaiting s
  Reach-IsWaiting (loaded view) = load-IsWaiting view
  Reach-IsWaiting (later {s} e r) =
      step-IsWaiting e s (Reach-IsWaiting r) (Reach-IsBooted platform r)

  -- In every state of a run in which the emulator is not ready, the status section is hidden or shown
  -- as it was on the page, and no timer is set that would hide it.
  pub Reach-status :
      {s : Shell W}
      → Reach platform page s
      → s.emulator_ready ≡ false
      → (s.page.boot_status ≡ page.boot_status) × (s.timers ≡ 0)
  Reach-status r h = (Reach-IsWaiting r h, (Reach-IsBooted platform r).timed h)

module _ {W : Type 0} ⦃d : Double W⦄ (laws : IsDouble W) (platform : Platform W) where
  -- With numbers that meet the laws of Double.Laws, from a running page that a run comes to: once
  -- the emulator is ready and the timer is over, the status section is hidden, the bar is full and
  -- the message says that the shell boots.
  pub ready_hides :
      {page : Page W} {s : Shell W}
      → Reach platform page s
      → s.phase ≡ running
      → let t = run platform (emulator_started ∷ timeout ∷ []) s in
        (t.page.boot_status ≡ Option.map (λ _. true) s.page.boot_status)
        × (t.page.boot_progress ≡ Option.map (λ _. show_percent (number 100)) s.page.boot_progress)
        × (t.page.boot_message
            ≡ Option.map (λ _. units "booting alpenglow shell") s.page.boot_message)
  unfolding run step ready finish_status status_timeout apply_terminal_scale set_status
  ready_hides {s = s} r p = ground (
    arith,
    laws.decimal-IsFinite 100 0 (omega arith) (omega arith),
    (Reach-IsBooted platform r).on_ready,
  )
