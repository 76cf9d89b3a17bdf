-- ===== src/Shell/Invariant.antt =====
-- What holds in every state of a run: which objects exist and which handlers are registered, by
-- where the module body waits.
use alpenglow.Prelude.{◌-◌, Text, Bool, true, false, ◌≡◌, ◌≢◌, [], Option, none, some, arith}
use alpenglow.Double.{Double}
use alpenglow.Shell.State.{
  Shell, Page, View, Platform, Phase, mounting, awaiting_build_id, importing, running, uncaught,
  failed, window_resize, terminal_data, host_pointerdown, serial_output, download_progress,
  download_error, emulator_ready, EmulatorConfig,
}
use alpenglow.Shell.Keyboard.{send_serial, key_down, submit, wire_legacy_keyboard}
use alpenglow.Shell.Screen.{
  write, mount_begin, mount_end, finish_status, apply_terminal_scale, status_timeout,
}
use alpenglow.Shell.Boot.{
  load, terminal_mounted, import_library, start_emulator, fail, ready, serial_byte, download_failed,
  emulator_config,
}
use alpenglow.Shell.BuildId.{Reply, settle_build_id}
use alpenglow.Shell.BuildId.Assets.{read_build_id-ne-nil, initial_build_id-ne-nil}
use alpenglow.Shell.Release.{start_release, version_arrived, release_arrived}
use alpenglow.Shell.Legacy.{mounted}
use alpenglow.Shell.Events.{
  Event, version_reply, build_id_reply, release_reply, init_settled, import_failed, import_done,
  resized_to, typed, pointer_pressed, byte_arrived, progress_made, download_broke, emulator_started,
  form_submitted, key_pressed, timeout, listens, step, on_version, settle, Reach, loaded, later,
}

-- `buildIdPromise` has been awaited.
abbrev pub past_build_id : Phase → Bool
past_build_id importing = true
past_build_id running = true
past_build_id (failed _) = true
past_build_id mounting = false
past_build_id awaiting_build_id = false
past_build_id uncaught = false

abbrev pub is_running : Phase → Bool
is_running running = true
is_running mounting = false
is_running awaiting_build_id = false
is_running importing = false
is_running uncaught = false
is_running (failed _) = false

abbrev pub exists {ℓ} : {A : Type ℓ} → Option A → Bool
exists none = false
exists (some _) = true

-- The emulator was made from the final build id, and from the size that the terminal had.
abbrev pub MadeFrom : Text → Text → Option EmulatorConfig → Type 0
MadeFrom build_id cmdline none = Unit
MadeFrom build_id cmdline (some c) = emulator_config build_id cmdline ≡ some c

pub record IsBooted {W : Type 0} (s : Shell W) : Type 0 where
  pub named : s.build_id ≢ []
  pub id_settled : past_build_id s.phase ≡ true → s.build_id_settled ≡ true
  pub made_from : MadeFrom s.build_id s.cmdline s.emulator
  pub started : exists s.emulator ≡ is_running s.phase
  pub terminal : exists s.term ≡ mounted s.phase
  pub fits : s.fit_addon ≡ mounted s.phase
  pub on_resize : listens window_resize s.listeners ≡ mounted s.phase
  pub on_data : listens terminal_data s.listeners ≡ mounted s.phase
  pub on_pointer : listens host_pointerdown s.listeners ≡ mounted s.phase
  pub on_serial : listens serial_output s.listeners ≡ is_running s.phase
  pub on_progress : listens download_progress s.listeners ≡ is_running s.phase
  pub on_error : listens download_error s.listeners ≡ is_running s.phase
  pub on_ready : listens emulator_ready s.listeners ≡ is_running s.phase
  pub ready_running : s.emulator_ready ≡ true → is_running s.phase ≡ true
  pub timed : s.emulator_ready ≡ false → s.timers ≡ 0

module _ {W : Type 0} ⦃d : Double W⦄ (platform : Platform W) where
  load-IsBooted : (page : Page W) (view : View W) → IsBooted (load platform page view)
  unfolding load start_release mount_begin
  load-IsBooted page view = ground (arith, initial_build_id-ne-nil)

  scale-IsBooted : (s : Shell W) → IsBooted s → IsBooted (apply_terminal_scale platform s)
  unfolding apply_terminal_scale
  scale-IsBooted s v = ground arith

  mounted-IsBooted :
      (s : Shell W) → IsBooted s → s.phase ≡ mounting → IsBooted (terminal_mounted platform s)
  unfolding terminal_mounted mount_end apply_terminal_scale
  mounted-IsBooted s v p = ground arith

  fail-IsBooted : (m : Text) (s : Shell W) → IsBooted s → s.phase ≡ importing → IsBooted (fail m s)
  unfolding fail write
  fail-IsBooted m s v p = ground arith

  start_emulator-IsBooted :
      (error : Option Text) (s : Shell W)
      → IsBooted s
      → s.phase ≡ importing
      → IsBooted (start_emulator platform error s)
  unfolding start_emulator wire_legacy_keyboard
  start_emulator-IsBooted none s v p = ground (arith, fail-IsBooted platform.uri_error s v p)
  start_emulator-IsBooted (some m) s v p =
      ground (arith, fail-IsBooted platform.uri_error s v p, fail-IsBooted m s v p)

  ready-IsBooted :
      (s : Shell W) → IsBooted s → is_running s.phase ≡ true → IsBooted (ready platform s)
  unfolding ready finish_status apply_terminal_scale
  ready-IsBooted s v p = ground arith

  version-IsBooted : (reply : Reply) (s : Shell W) → IsBooted s → IsBooted (on_version reply s)
  unfolding on_version version_arrived
  version-IsBooted reply s v = ground arith

  settle-IsBooted : (reply : Reply) (s : Shell W) → IsBooted s → IsBooted (settle reply s)
  unfolding settle settle_build_id import_library
  settle-IsBooted reply s v = ground (arith, read_build_id-ne-nil reply s.build_id)

  hide-IsBooted :
      (page : Page W) (s : Shell W)
      → IsBooted s
      → IsBooted (record s { page = page; timers = s.timers - 1 })
  hide-IsBooted page s v = ground arith

  status_timeout-IsBooted : (s : Shell W) → IsBooted s → IsBooted (status_timeout platform s)
  unfolding status_timeout
  status_timeout-IsBooted s v = scale-IsBooted _ (hide-IsBooted _ s v)

  step-IsBooted : (e : Event W) (s : Shell W) → IsBooted s → IsBooted (step platform e s)
  unfolding step
  step-IsBooted (version_reply reply) s v = version-IsBooted reply s v
  step-IsBooted (build_id_reply reply) s v = settle-IsBooted reply s v
  step-IsBooted (release_reply reply) s v = unfold release_arrived in ground arith
  step-IsBooted (init_settled error) s v = ground (arith, mounted-IsBooted s v)
  step-IsBooted (import_failed m) s v = ground (arith, fail-IsBooted m s v)
  step-IsBooted (import_done error) s v = ground (arith, start_emulator-IsBooted error s v)
  step-IsBooted (resized_to view) s v = unfold apply_terminal_scale in ground arith
  step-IsBooted (typed t) s v = unfold send_serial in ground arith
  step-IsBooted pointer_pressed s v = ground arith
  step-IsBooted (byte_arrived b) s v = unfold serial_byte write in ground arith
  step-IsBooted (progress_made e) s v = ground arith
  step-IsBooted download_broke s v = unfold download_failed in ground arith
  step-IsBooted emulator_started s v = ground (arith, ready-IsBooted s v)
  step-IsBooted form_submitted s v = unfold submit send_serial in ground arith
  step-IsBooted (key_pressed k) s v = unfold key_down send_serial in ground arith
  step-IsBooted timeout s v = ground (arith, status_timeout-IsBooted s v)

  -- In every state of a run: the build id is not empty, and it is settled from the import on; the
  -- emulator is the one that the build id and the command line make; there is an emulator exactly
  -- while the phase is running, and a terminal with its addon once it is mounted; each handler of the
  -- terminal is registered exactly with the terminal and each handler of the emulator exactly with the
  -- emulator; the emulator is ready only while running, and no timer is set before.
  pub Reach-IsBooted : {page : Page W} {s : Shell W} → Reach platform page s → IsBooted s
  Reach-IsBooted {page} (loaded view) = load-IsBooted page view
  Reach-IsBooted (later {s} e r) = step-IsBooted e s (Reach-IsBooted r)
