-- ===== src/Shell/Progress.antt =====
-- The progress bar: what `setStatus` keeps true of it in every run.
use alpenglow.Prelude.{
  Text, units, ◌≡◌, refl, ◌++◌, Option, none, some, arith, if◌then◌else◌, ◌&&◌, Bool-cases, inl,
  inr,
}
use mathlib.Core.Option
use alpenglow.Double.{Double, number, or_number, truthy}
use alpenglow.Double.Laws.{IsDouble, ◌≼◌, IsFinite, max_min_bounds, clamp_of_mem}
use alpenglow.Shell.State.{Shell, Page, View, Platform, Meter, failed}
use alpenglow.Shell.Status.{show_percent, set_status, current_progress}
use alpenglow.Shell.BuildId.{Reply, settle_build_id}
use alpenglow.Shell.Release.{start_release, version_arrived, release_arrived}
use alpenglow.Shell.Keyboard.{send_serial, key_down, submit, wire_legacy_keyboard}
use alpenglow.Shell.Screen.{write, mount_begin, mount_end, finish_status, apply_terminal_scale}
use alpenglow.Shell.Screen.{status_timeout}
use alpenglow.Shell.Boot.{
  Progress, loading_message, load, terminal_mounted, import_library, start_emulator, fail,
}
use alpenglow.Shell.Boot.{ready, serial_byte, download_failed, progressed}
use alpenglow.Shell.Events

module _ {W : Type 0} ⦃d : Double W⦄ where
  -- The value is between 0 and 100, and the text is the value in whole percent.
  pub record IsShown (m : Meter W) : Type 0 where
    pub low : number 0 ≼ m.value
    pub high : m.value ≼ number 100
    pub text : m.label ≡ d.to_text (d.round m.value) ++ units "%"

  -- A page without a progress bar has nothing to show.
  abbrev pub BarShown : Option (Meter W) → Type 0
  BarShown none = Unit
  BarShown (some m) = IsShown m

  abbrev pub PageShown : Page W → Type 0
  PageShown page = BarShown page.boot_progress

module _ {W : Type 0} ⦃d : Double W⦄ (laws : IsDouble W) where
  show_percent-IsShown : (x : W) → IsFinite x → IsShown (show_percent x)
  unfolding show_percent
  show_percent-IsShown x h =
      let bounds =
        max_min_bounds laws (number 0) (number 100) x
          (laws.number_mono 0 100 (omega arith) (omega arith)) (laws.number_of_finite x h) in
      record { low = bounds.0; high = bounds.1; text = refl }

  map-BarShown :
      (x : W) (bar : Option (Meter W))
      → IsFinite x
      → BarShown (Option.map (λ _. show_percent x) bar)
  map-BarShown x none h = tt
  map-BarShown x (some m) h = show_percent-IsShown x h

  set_status-PageShown :
      (m : Text) (x : W) (page : Page W) → PageShown page → PageShown (set_status m x page)
  unfolding set_status
  set_status-PageShown m x page h = elim (Bool-cases (d.is_finite x)) [
    | inl finite ↦ rw finite (map-BarShown x page.boot_progress finite)
    | inr other ↦ rw other h
  ]

  or_number-shown : (v : W) → number 0 ≼ v → or_number v (number 0) ≡ v
  or_number-shown v h =
      ground (arith, laws.le_antisymm v (number 0), laws.number_of_le (number 0) v)

  show_percent-shown : (m : Meter W) → IsShown m → show_percent m.value ≡ m
  unfolding show_percent
  show_percent-shown m h =
      ground (arith, clamp_of_mem laws (number 0) (number 100) m.value h.low h.high)

  shown-IsFinite : (m : Meter W) → IsShown m → IsFinite m.value
  shown-IsFinite m h =
      laws.finite_between (number 0) m.value (number 100)
        (laws.decimal-IsFinite 0 0 (omega arith) (omega arith))
        (laws.decimal-IsFinite 100 0 (omega arith) (omega arith)) h.low h.high

  -- Setting the status to the progress that is shown leaves the bar alone.
  set_status_current :
      (m : Text) (page : Page W)
      → PageShown page
      → (set_status m (current_progress page) page).boot_progress ≡ page.boot_progress
  unfolding set_status current_progress
  set_status_current m page h = bar page.boot_progress h
    where
      show_again :
          (v : Meter W)
          → IsShown v
          → (if d.is_finite (or_number v.value (number 0))
              then some (show_percent (or_number v.value (number 0)))
              else some v)
            ≡ some v
      show_again v h =
          rw (or_number-shown v.value h.low, shown-IsFinite v h, show_percent-shown v h)

      bar :
          (b : Option (Meter W))
          → BarShown b
          → (let x : W = elim b [ none ↦ number 0 | some v ↦ or_number v.value (number 0) ] in
              if d.is_finite x then Option.map (λ _. show_percent x) b else b)
            ≡ b
      bar none h = ground arith
      bar (some v) h = show_again v h

module _ {W : Type 0} ⦃d : Double W⦄ (laws : IsDouble W) (platform : Platform W) where
  fail-PageShown : (m : Text) (s : Shell W) → PageShown s.page → PageShown (fail m s).page
  unfolding fail write
  fail-PageShown m s h =
      set_status-PageShown laws (units "failed: " ++ m) (current_progress s.page) s.page h

  start_emulator-PageShown :
      (error : Option Text) (s : Shell W)
      → PageShown s.page
      → PageShown (start_emulator platform error s).page
  unfolding start_emulator wire_legacy_keyboard
  start_emulator-PageShown none s h = ground (arith, fail-PageShown platform.uri_error s h)
  start_emulator-PageShown (some m) s h =
      ground (arith, fail-PageShown platform.uri_error s h, fail-PageShown m s h)

  ready-PageShown : (s : Shell W) → PageShown s.page → PageShown (ready platform s).page
  unfolding ready finish_status apply_terminal_scale
  ready-PageShown s h =
      ground
        (arith, set_status-PageShown laws (units "booting alpenglow shell") (number 100) s.page h)

  progressed-PageShown :
      (e : Progress W) (page : Page W) → PageShown page → PageShown (progressed e page)
  unfolding progressed
  progressed-PageShown e page h = elim (Bool-cases (e.length_computable && truthy e.total)) [
    | inl known ↦ rw known (set_status-PageShown laws _ _ page h)
    | inr unknown ↦ rw unknown (set_status-PageShown laws _ _ page h)
  ]

  terminal_mounted-PageShown :
      (s : Shell W) → PageShown s.page → PageShown (terminal_mounted platform s).page
  unfolding terminal_mounted mount_end apply_terminal_scale
  terminal_mounted-PageShown s h = ground arith

  screen-set_status :
      (m : Text) (x : W) (page : Page W) → (set_status m x page).screen ≡ page.screen
  unfolding set_status
  screen-set_status m x page = refl

  load-PageShown :
      (page : Page W) (view : View W) → PageShown page → PageShown (load platform page view).page
  unfolding load start_release mount_begin
  load-PageShown page view h = ground (
    arith,
    set_status-PageShown laws loading_message (number 0) page h,
    screen-set_status loading_message (number 0) page,
  )

  -- The events that do not set the status.
  version-PageShown :
      (reply : Reply) (s : Shell W) → PageShown s.page → PageShown (Events.on_version reply s).page
  unfolding Events.on_version version_arrived
  version-PageShown reply s h = ground arith

  settle-PageShown :
      (reply : Reply) (s : Shell W) → PageShown s.page → PageShown (Events.settle reply s).page
  unfolding Events.settle settle_build_id import_library
  settle-PageShown reply s h = ground arith

  step-PageShown :
      (e : Events.Event W) (s : Shell W)
      → PageShown s.page
      → PageShown (Events.step platform e s).page
  unfolding Events.step
  step-PageShown (Events.version_reply reply) s h = version-PageShown reply s h
  step-PageShown (Events.build_id_reply reply) s h = settle-PageShown reply s h
  step-PageShown (Events.release_reply reply) s h = unfold release_arrived in ground arith
  step-PageShown (Events.init_settled error) s h = ground (arith, terminal_mounted-PageShown s h)
  step-PageShown (Events.import_failed m) s h = ground (arith, fail-PageShown m s h)
  step-PageShown (Events.import_done error) s h = ground (arith, start_emulator-PageShown error s h)
  step-PageShown (Events.resized_to view) s h = unfold apply_terminal_scale in ground arith
  step-PageShown (Events.typed t) s h = unfold send_serial in ground arith
  step-PageShown Events.pointer_pressed s h = ground arith
  step-PageShown (Events.byte_arrived b) s h = unfold serial_byte write in ground arith
  step-PageShown (Events.progress_made e) s h = ground (arith, progressed-PageShown e s.page h)
  step-PageShown Events.download_broke s h =
      unfold download_failed in
      ground (
        arith,
        set_status-PageShown laws (units "failed to load Alpenglow") (current_progress s.page)
            s.page h,
      )
  step-PageShown Events.emulator_started s h = ground (arith, ready-PageShown s h)
  step-PageShown Events.form_submitted s h = unfold submit send_serial in ground arith
  step-PageShown (Events.key_pressed k) s h = unfold key_down send_serial in ground arith
  step-PageShown Events.timeout s h = unfold status_timeout apply_terminal_scale in ground arith

  -- With numbers that meet the laws of Double.Laws: in every state of a run the value of the bar
  -- is between 0 and 100 and its text is the value in whole percent, if that holds of the page
  -- that the server sent.
  pub Reach-PageShown :
      {page : Page W} {s : Shell W}
      → PageShown page
      → Events.Reach platform page s
      → PageShown s.page
  Reach-PageShown {page} h (Events.loaded view) = load-PageShown page view h
  Reach-PageShown h (Events.later {s} e r) = step-PageShown e s (Reach-PageShown h r)

  -- With numbers that meet the laws of Double.Laws, in every state of a run on a page whose bar is
  -- shown rightly: a failed download and an error in the boot show their message and leave the bar
  -- as it is, and the error ends the boot.
  pub failure_keeps_bar :
      {page : Page W} {s : Shell W} (m : Text)
      → PageShown page
      → Events.Reach platform page s
      → ((download_failed s).page.boot_progress ≡ s.page.boot_progress)
        × ((fail m s).page.boot_progress ≡ s.page.boot_progress)
        × ((download_failed s).page.boot_message
            ≡ Option.map (λ _. units "failed to load Alpenglow") s.page.boot_message)
        × ((fail m s).page.boot_message
            ≡ Option.map (λ _. units "failed: " ++ m) s.page.boot_message)
        × ((fail m s).phase ≡ failed m)
  unfolding download_failed fail write set_status
  failure_keeps_bar {s} m h r =
      let shown = Reach-PageShown h r in
      (
        set_status_current laws (units "failed to load Alpenglow") s.page shown,
        set_status_current laws (units "failed: " ++ m) s.page shown,
        refl,
        refl,
        refl,
      )
