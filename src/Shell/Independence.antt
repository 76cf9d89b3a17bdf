-- ===== src/Shell/Independence.antt =====
-- The release link and the boot run side by side, and neither sees the other.
use alpenglow.Prelude.{
  Text, Bool, true, false, ◌≡◌, refl, Bool-cases, inl, inr, Option, none, some, arith, ◌&&◌,
}
use alpenglow.Double.{Double, truthy}
use alpenglow.Shell.State.{Shell, Page, Platform, Link, ReleaseTask}
use alpenglow.Shell.Boot.{
  Progress, terminal_mounted, import_library, start_emulator, fail, serial_byte, progressed,
  download_failed, ready,
}
use alpenglow.Shell.BuildId.{settle_build_id}
use alpenglow.Shell.Keyboard.{send_serial, key_down, submit, wire_legacy_keyboard}
use alpenglow.Shell.Screen.{write, mount_end, apply_terminal_scale, status_timeout, finish_status}
use alpenglow.Shell.Status.{set_status, current_progress}
use alpenglow.Shell.Events.{
  Event, version_reply, build_id_reply, release_reply, init_settled, import_failed, import_done,
  resized_to, typed, pointer_pressed, byte_arrived, progress_made, download_broke, emulator_started,
  form_submitted, key_pressed, timeout, step, settle,
}

module _ {W : Type 0} where
  abbrev pub is_release_event : Event W → Bool
  is_release_event (version_reply _) = true
  is_release_event (release_reply _) = true
  is_release_event (build_id_reply _) = false
  is_release_event (init_settled _) = false
  is_release_event (import_failed _) = false
  is_release_event (import_done _) = false
  is_release_event (resized_to _) = false
  is_release_event (typed _) = false
  is_release_event pointer_pressed = false
  is_release_event (byte_arrived _) = false
  is_release_event (progress_made _) = false
  is_release_event download_broke = false
  is_release_event emulator_started = false
  is_release_event form_submitted = false
  is_release_event (key_pressed _) = false
  is_release_event timeout = false

  -- Another state of the release task, and another link.
  abbrev pub relink : ReleaseTask → Option Link → Shell W → Shell W
  relink task link s = record s { release = task; page = record (s.page) { release_link = link } }

module _ {W : Type 0} ⦃d : Double W⦄ (platform : Platform W) (task : ReleaseTask)
    (link : Option Link) where
  mounted-relink :
      (s : Shell W)
      → terminal_mounted platform (relink task link s)
        ≡ relink task link (terminal_mounted platform s)
  unfolding terminal_mounted mount_end apply_terminal_scale
  mounted-relink s = ground arith

  fail-relink : (m : Text) (s : Shell W) → fail m (relink task link s) ≡ relink task link (fail m s)
  unfolding fail write set_status current_progress
  fail-relink m s = refl

  progressed-relink :
      (e : Progress W) (page : Page W)
      → progressed e (record page { release_link = link })
        ≡ record (progressed e page) { release_link = link }
  unfolding progressed set_status current_progress
  progressed-relink e page = elim (Bool-cases (e.length_computable && truthy e.total)) [
    | inl known ↦ rw known refl
    | inr unknown ↦ rw unknown refl
  ]

  start_emulator-relink :
      (error : Option Text) (s : Shell W)
      → start_emulator platform error (relink task link s)
        ≡ relink task link (start_emulator platform error s)
  unfolding start_emulator wire_legacy_keyboard
  start_emulator-relink none s = ground (arith, fail-relink platform.uri_error s)
  start_emulator-relink (some m) s =
      ground (arith, fail-relink platform.uri_error s, fail-relink m s)

  ready-relink :
      (s : Shell W) → ready platform (relink task link s) ≡ relink task link (ready platform s)
  unfolding ready finish_status apply_terminal_scale set_status
  ready-relink s = ground arith

  -- Every event but the two answers to the release task behaves alike whatever that task has done, and
  -- leaves its state and the link alone.
  pub step-relink :
      (e : Event W) (s : Shell W)
      → is_release_event e ≡ false
      → step platform e (relink task link s) ≡ relink task link (step platform e s)
  unfolding step
  step-relink (version_reply reply) s h = cc
  step-relink (release_reply reply) s h = cc
  step-relink (build_id_reply reply) s h =
      unfold settle settle_build_id import_library in ground arith
  step-relink (init_settled error) s h = ground (arith, mounted-relink s)
  step-relink (import_failed m) s h = ground (arith, fail-relink m s)
  step-relink (import_done error) s h = ground (arith, start_emulator-relink error s)
  step-relink (resized_to view) s h = unfold apply_terminal_scale in ground arith
  step-relink (typed t) s h = unfold send_serial in ground arith
  step-relink pointer_pressed s h = ground arith
  step-relink (byte_arrived b) s h = unfold serial_byte write in ground arith
  step-relink (progress_made e) s h = ground (arith, progressed-relink e s.page)
  step-relink download_broke s h =
      unfold download_failed set_status current_progress in ground arith
  step-relink emulator_started s h = ground (arith, ready-relink s)
  step-relink form_submitted s h = unfold submit send_serial in ground arith
  step-relink (key_pressed k) s h = unfold key_down send_serial in ground arith
  step-relink timeout s h = unfold status_timeout apply_terminal_scale in ground arith
