-- ===== src/Shell/Tests.antt =====
-- The theorems on the script at concrete runs.
use alpenglow.Prelude.{
  ◌<◌, IsText, units, true, false, ◌≡◌, refl, sym, Option, none, some, List, [], ◌∷◌, ◌++◌, All,
  arith, trim,
}
use mathlib.Core.Option
use mathlib.Core.Path.{subst}
use alpenglow.Double.Fixed.{Fixed, fixed_double, Fixed-IsDouble}
use alpenglow.Uri.WellFormed.{WellFormed, WellFormed-of_ascii}
use alpenglow.Shell.State.{Shell, EmulatorConfig, running, text}
use alpenglow.Shell.BuildId.{read_build_id, initial_build_id, body}
use alpenglow.Shell.Boot.{load}
use alpenglow.Shell.Success.{boot_succeeds}
use alpenglow.Shell.Invariant.{exists, IsBooted, Reach-IsBooted}
use alpenglow.Shell.Once.{IsOnce, Reach-IsOnce}
use alpenglow.Shell.Emulator.{UsesBuild, Reach-UsesBuild}
use alpenglow.Shell.Legacy.{step_fallback}
use alpenglow.Shell.Progress.{PageShown, Reach-PageShown}
use alpenglow.Shell.Serial.{run_serial, output_of, sent_in}
use alpenglow.Shell.Keyboard.Keys.{key_event}
use alpenglow.Shell.Screen.{mount_end, mount_begin, apply_terminal_scale}
use alpenglow.Shell.Release.{start_release}
use alpenglow.Shell.Events.{settle}
use alpenglow.Shell.BuildId.{settle_build_id, asset}
use alpenglow.Uri.{encode_uri_component}
use alpenglow.Shell.Boot.{terminal_mounted, start_emulator, emulator_config, import_library}
use alpenglow.Shell.Keyboard.{wire_legacy_keyboard}
use alpenglow.Shell.Status.{set_status}
use alpenglow.Shell.Samples.{
  sample_page, sample_view, sample_platform, sample_boot, sample_meter-IsShown,
}
use alpenglow.Shell.Events.{
  Event, build_id_reply, init_settled, import_done, byte_arrived, typed, key_pressed,
  form_submitted, step, run, Reach, loaded, Reach-run,
}

abbrev start : Shell Fixed
start = load sample_platform sample_page sample_view

abbrev booted : Shell Fixed
booted = run sample_platform sample_boot start

abbrev sample_events : List (Event Fixed)
sample_events = byte_arrived 104 ∷ typed (units "ls") ∷ byte_arrived 255 ∷ byte_arrived 105 ∷ []

build_id-ascii : All (λ c. c < 128) (read_build_id (body (units "a1")) initial_build_id)
unfolding read_build_id trim
build_id-ascii = omega arith

build_id-WellFormed : WellFormed (read_build_id (body (units "a1")) initial_build_id)
build_id-WellFormed = WellFormed-of_ascii _ build_id-ascii

booted-Reach : Reach sample_platform sample_page booted
booted-Reach = Reach-run sample_platform sample_boot (loaded sample_view)

boot_succeeds_example :
    let reply = body (units "a1") in
    let id_first =
      run sample_platform
        (build_id_reply reply ∷ init_settled none ∷ import_done none ∷ [])
        start in
    let terminal_first =
      run sample_platform
        (init_settled none ∷ build_id_reply reply ∷ import_done none ∷ [])
        start in
    (id_first.phase ≡ running)
    × (exists id_first.emulator ≡ true)
    × (terminal_first.phase ≡ running)
    × (exists terminal_first.emulator ≡ true)
boot_succeeds_example =
    boot_succeeds sample_platform sample_page sample_view (body (units "a1")) refl
      build_id-WellFormed

booted-running : booted.phase ≡ running
booted-running =
    (boot_succeeds sample_platform sample_page sample_view (body (units "a1")) refl
      build_id-WellFormed).0

run_serial_example :
    ((run sample_platform sample_events booted).phase ≡ running)
    × (output_of (run sample_platform sample_events booted).term
        ≡ output_of booted.term ++ units "hi")
    × (sent_in (run sample_platform sample_events booted).log
        ≡ text (units "ls") ∷ sent_in booted.log)
run_serial_example = run_serial sample_platform sample_events booted-Reach booted-running

Reach-PageShown_example : PageShown booted.page
Reach-PageShown_example =
    Reach-PageShown Fixed-IsDouble sample_platform sample_meter-IsShown booted-Reach

step_fallback_example :
    (step sample_platform (key_pressed (key_event (units "x") false)) booted ≡ booted)
    × (step sample_platform form_submitted booted ≡ booted)
step_fallback_example = step_fallback sample_platform (key_event (units "x") false) booted-Reach

some_of : {A : Type 0} (o : Option A) → exists o ≡ true → (a : A) × (o ≡ some a)
some_of none h = cc
some_of (some a) h = (a, refl)

booted_emulator : (c : EmulatorConfig) × (booted.emulator ≡ some c)
booted_emulator = some_of booted.emulator boot_succeeds_example.1

booted-build_id : booted.build_id ≡ units "a1"
unfolding run step settle settle_build_id read_build_id trim load start_release mount_begin
    set_status terminal_mounted mount_end apply_terminal_scale import_library start_emulator
    emulator_config wire_legacy_keyboard initial_build_id asset encode_uri_component
booted-build_id = refl

Reach-UsesBuild_example : UsesBuild booted.build_id booted.cmdline booted_emulator.0
Reach-UsesBuild_example =
    Reach-UsesBuild sample_platform booted-Reach booted_emulator.1
      (subst IsText (sym booted-build_id) (omega arith))

Reach-IsBooted_example : IsBooted booted
Reach-IsBooted_example = Reach-IsBooted sample_platform booted-Reach

Reach-IsOnce_example : IsOnce sample_page booted
Reach-IsOnce_example = Reach-IsOnce sample_platform sample_page refl booted-Reach

start-unready : start.emulator_ready ≡ false
unfolding load start_release mount_begin set_status
start-unready = refl
