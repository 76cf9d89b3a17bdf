-- ===== src/Shell/Failure.antt =====
-- The ways in which the boot does not come to a running page.
use alpenglow.Prelude.{◌≡◌, refl, ap, List, [], ◌∷◌, none, arith, ◌∙◌}
use mathlib.Core.Option
use alpenglow.Double.{Double}
use alpenglow.Shell.State.{Shell, Page, View, Platform, uncaught}
use alpenglow.Shell.Boot.{load}
use alpenglow.Shell.BuildId.{settle_build_id}
use alpenglow.Shell.Release.{start_release, version_arrived, release_arrived}
use alpenglow.Shell.Legacy.{IsUnwired, Reach-IsUnwired}
use alpenglow.Shell.Invariant.{IsBooted, Reach-IsBooted}
use alpenglow.Shell.Events.{
  Event, version_reply, build_id_reply, release_reply, step, run, on_version, settle, Reach, later,
  loaded,
}

module _ {W : Type 0} where
  -- What the visitor sees of the boot.
  pub record SameScreen (s t : Shell W) : Type 0 where
    pub stopped : t.phase ≡ uncaught
    pub status : t.page.boot_status ≡ s.page.boot_status
    pub message : t.page.boot_message ≡ s.page.boot_message
    pub progress : t.page.boot_progress ≡ s.page.boot_progress
    pub fallback : t.page.legacy_pre ≡ s.page.legacy_pre
    pub form : t.page.command_form ≡ s.page.command_form
    pub emulator : t.emulator ≡ none
    pub term : t.term ≡ none

module _ {W : Type 0} ⦃d : Double W⦄ (platform : Platform W) where
  step-SameScreen :
      (e : Event W) (s : Shell W)
      → IsBooted s
      → IsUnwired s
      → s.phase ≡ uncaught
      → SameScreen s (step platform e s)
  unfolding step
  step-SameScreen (version_reply reply) s v u p = unfold on_version version_arrived in ground arith
  step-SameScreen (build_id_reply reply) s v u p = unfold settle settle_build_id in ground arith
  step-SameScreen (release_reply reply) s v u p = unfold release_arrived in ground arith
  step-SameScreen _ s v u p = ground arith

  run-SameScreen :
      {page : Page W} (es : List (Event W)) {s : Shell W}
      → Reach platform page s
      → SameScreen s s
      → SameScreen s (run platform es s)
  unfolding run
  run-SameScreen [] r same = same
  run-SameScreen (e ∷ es) {s} r same =
      let one =
        step-SameScreen e s (Reach-IsBooted platform r) (Reach-IsUnwired platform r) same.stopped in
      let rest = run-SameScreen es (later e r) (self_of one) in
      record {
        stopped = rest.stopped;
        status = rest.status ∙ one.status;
        message = rest.message ∙ one.message;
        progress = rest.progress ∙ one.progress;
        fallback = rest.fallback ∙ one.fallback;
        form = rest.form ∙ one.form;
        emulator = rest.emulator;
        term = rest.term;
      }
    where
      self_of : {t : Shell W} → SameScreen s t → SameScreen t t
      self_of one = record {
        stopped = one.stopped;
        status = refl;
        message = refl;
        progress = refl;
        fallback = refl;
        form = refl;
        emulator = one.emulator;
        term = one.term;
      }

  module _ (page : Page W) (view : View W) where
    load-missing :
        page.screen ≡ none
        → SameScreen (load platform page view) (load platform page view)
          × ((load platform page view).page ≡ page)
    unfolding load start_release
    load-missing h = (ground arith, ground arith)

    -- Without a mount point the script stops with an error: whatever events follow, no emulator is
    -- made, and the message, the bar and the fallback elements are as they were on the page.
    pub missing_mount_point :
        page.screen ≡ none
        → (es : List (Event W))
        → let t = run platform es (load platform page view) in
          (t.phase ≡ uncaught)
          × (t.emulator ≡ none)
          × (t.page.boot_message ≡ page.boot_message)
          × (t.page.boot_progress ≡ page.boot_progress)
          × (t.page.legacy_pre ≡ page.legacy_pre)
          × (t.page.command_form ≡ page.command_form)
    missing_mount_point h es =
        let (same, whole) = load-missing h in
        let end = run-SameScreen es (loaded view) same in
        (
          end.stopped,
          end.emulator,
          end.message ∙ ap (λ p. p.boot_message) whole,
          end.progress ∙ ap (λ p. p.boot_progress) whole,
          end.fallback ∙ ap (λ p. p.legacy_pre) whole,
          end.form ∙ ap (λ p. p.command_form) whole,
        )
