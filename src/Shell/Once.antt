-- ===== src/Shell/Once.antt =====
-- What the script makes, it makes once: the terminal, the emulator, and the host element.
use alpenglow.Prelude.{
  ℕ, ◌+◌, Text, ◌≡◌, Option, none, some, List, [], ◌∷◌, ◌++◌, arith, if◌then◌else◌,
}
use mathlib.Core.Option
use alpenglow.Double.{Double}
use alpenglow.Shell.State.{
  Shell, Page, View, Platform, Effect, fetched, imported, terminal_created, addon_loaded, fitted,
  resize_observed, opened, resized, terminal_focused, legacy_focused, legacy_scrolled,
  default_prevented, emulator_created, serial_sent, timeout_set, error_logged, mounting, importing,
}
use alpenglow.Shell.BuildId.{Reply, settle_build_id}
use alpenglow.Shell.Release.{start_release, version_arrived, release_arrived}
use alpenglow.Shell.Status.{set_status}
use alpenglow.Shell.Keyboard.{send_serial, submit, key_down}
use alpenglow.Shell.Screen.{
  new_host, write, mount_begin, mount_end, apply_terminal_scale, finish_status, status_timeout,
}
use alpenglow.Shell.Boot.{
  load, terminal_mounted, import_library, start_emulator, fail, ready, serial_byte, progressed,
  download_failed,
}
use alpenglow.Shell.Legacy.{mounted, Reach-IsUnwired, IsUnwired}
use alpenglow.Shell.Invariant.{exists, IsBooted, Reach-IsBooted}
use alpenglow.Shell.Events.{
  Event, version_reply, build_id_reply, release_reply, init_settled, import_failed, import_done,
  resized_to, typed, pointer_pressed, byte_arrived, progress_made, download_broke, emulator_started,
  form_submitted, key_pressed, timeout, step, settle, on_version, Reach, loaded, later,
}

-- How often the log creates a terminal, and how often an emulator.
module _ {W : Type 0} where
  abbrev pub created : List (Effect W) → ℕ × ℕ
  created [] = (0, 0)
  created (terminal_created _ ∷ log) = ((created log).0 + 1, (created log).1)
  created (emulator_created _ ∷ log) = ((created log).0, (created log).1 + 1)
  created (fetched _ ∷ log) = created log
  created (imported _ ∷ log) = created log
  created (addon_loaded ∷ log) = created log
  created (fitted ∷ log) = created log
  created (resize_observed ∷ log) = created log
  created (opened _ ∷ log) = created log
  created (resized _ _ ∷ log) = created log
  created (terminal_focused ∷ log) = created log
  created (legacy_focused ∷ log) = created log
  created (legacy_scrolled ∷ log) = created log
  created (default_prevented ∷ log) = created log
  created (serial_sent _ ∷ log) = created log
  created (timeout_set _ ∷ log) = created log
  created (error_logged _ ∷ log) = created log

  pub record IsOnce (page : Page W) (s : Shell W) : Type 0 where
    pub terminals : (created s.log).0 ≡ (if mounted s.phase then 1 else 0)
    pub emulators : (created s.log).1 ≡ (if exists s.emulator then 1 else 0)
    pub screen : s.page.screen ≡ (
        if mounted s.phase
        then Option.map (λ children. children ++ new_host ∷ []) page.screen
        else page.screen)
    pub host : s.page.xterm_host ≡ (if mounted s.phase then some new_host else none)

module _ {W : Type 0} ⦃d : Double W⦄ (platform : Platform W) (page : Page W) where
  load-IsOnce : (view : View W) → page.xterm_host ≡ none → IsOnce page (load platform page view)
  unfolding load start_release mount_begin set_status
  load-IsOnce view h = ground arith

  scale-IsOnce : (s : Shell W) → IsOnce page s → IsOnce page (apply_terminal_scale platform s)
  unfolding apply_terminal_scale
  scale-IsOnce s v = ground arith

  mounted-IsOnce :
      (s : Shell W) → IsOnce page s → s.phase ≡ mounting → IsOnce page (terminal_mounted platform s)
  unfolding terminal_mounted mount_end apply_terminal_scale
  mounted-IsOnce s v p = ground arith

  fail-IsOnce :
      (m : Text) (s : Shell W) → IsOnce page s → s.phase ≡ importing → IsOnce page (fail m s)
  unfolding fail write set_status
  fail-IsOnce m s v p = ground arith

  start_emulator-IsOnce :
      (error : Option Text) (s : Shell W)
      → IsOnce page s
      → IsBooted s
      → IsUnwired s
      → s.phase ≡ importing
      → IsOnce page (start_emulator platform error s)
  unfolding start_emulator
  start_emulator-IsOnce none s v b u p = ground (arith, fail-IsOnce platform.uri_error s v p)
  start_emulator-IsOnce (some m) s v b u p =
      ground (arith, fail-IsOnce platform.uri_error s v p, fail-IsOnce m s v p)

  ready-IsOnce : (s : Shell W) → IsOnce page s → IsOnce page (ready platform s)
  unfolding ready finish_status apply_terminal_scale set_status
  ready-IsOnce s v = ground arith

  settle-IsOnce : (reply : Reply) (s : Shell W) → IsOnce page s → IsOnce page (settle reply s)
  unfolding settle settle_build_id import_library
  settle-IsOnce reply s v = ground arith

  version-IsOnce : (reply : Reply) (s : Shell W) → IsOnce page s → IsOnce page (on_version reply s)
  unfolding on_version version_arrived
  version-IsOnce reply s v = ground arith

  step-IsOnce :
      (e : Event W) (s : Shell W)
      → IsOnce page s
      → IsBooted s
      → IsUnwired s
      → IsOnce page (step platform e s)
  unfolding step
  step-IsOnce (version_reply reply) s v b u = version-IsOnce reply s v
  step-IsOnce (build_id_reply reply) s v b u = settle-IsOnce reply s v
  step-IsOnce (release_reply reply) s v b u = unfold release_arrived in ground arith
  step-IsOnce (init_settled error) s v b u = ground (arith, mounted-IsOnce s v)
  step-IsOnce (import_failed m) s v b u = ground (arith, fail-IsOnce m s v)
  step-IsOnce (import_done error) s v b u = ground (arith, start_emulator-IsOnce error s v b u)
  step-IsOnce (resized_to view) s v b u = unfold apply_terminal_scale in ground arith
  step-IsOnce (typed t) s v b u = unfold send_serial in ground arith
  step-IsOnce pointer_pressed s v b u = ground arith
  step-IsOnce (byte_arrived c) s v b u = unfold serial_byte write in ground arith
  step-IsOnce (progress_made e) s v b u = unfold progressed set_status in ground arith
  step-IsOnce download_broke s v b u = unfold download_failed set_status in ground arith
  step-IsOnce emulator_started s v b u = ground (arith, ready-IsOnce s v)
  step-IsOnce form_submitted s v b u = unfold submit send_serial in ground arith
  step-IsOnce (key_pressed k) s v b u = unfold key_down send_serial in ground arith
  step-IsOnce timeout s v b u = unfold status_timeout apply_terminal_scale in ground arith

  -- In every state of a run on a page that comes without a host element: the terminal was created
  -- once if it is mounted and else never, the emulator once if there is one and else never, and
  -- the mount point has exactly one child more than at first, the host, once the terminal is mounted.
  pub Reach-IsOnce : {s : Shell W} → page.xterm_host ≡ none → Reach platform page s → IsOnce page s
  Reach-IsOnce h (loaded view) = load-IsOnce view h
  Reach-IsOnce h (later {s} e r) =
      step-IsOnce e s (Reach-IsOnce h r) (Reach-IsBooted platform r) (Reach-IsUnwired platform r)
