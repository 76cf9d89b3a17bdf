-- ===== src/Shell/Serial.antt =====
-- The serial line between the terminal and the emulator, once the emulator runs: in any order of
-- events, all that it prints is shown and all that is typed is sent.
use alpenglow.Prelude.{
  Text, ◌≡◌, refl, sym, ap, ◌∙◌, List, [], ◌∷◌, ◌++◌, Option, none, some, arith, if◌then◌else◌,
  ◌==◌, append-nil, append_assoc,
}
use alpenglow.Double.{Double}
use alpenglow.Shell.State.{
  Shell, Page, Platform, running, Term, Effect, serial_sent, SerialData, text, fetched, imported,
  terminal_created, addon_loaded, fitted, resize_observed, opened, resized, terminal_focused,
  legacy_focused, legacy_scrolled, default_prevented, emulator_created, timeout_set, error_logged,
}
use alpenglow.Shell.Keyboard.{send_serial}
use alpenglow.Shell.Screen.{write, finish_status, apply_terminal_scale, status_timeout}
use alpenglow.Shell.Boot.{ready, serial_byte, download_failed}
use alpenglow.Shell.Release.{version_arrived, release_arrived}
use alpenglow.Shell.Legacy.{IsUnwired, Reach-IsUnwired}
use alpenglow.Shell.Invariant.{IsBooted, Reach-IsBooted}
use alpenglow.Shell.Events.{
  Event, version_reply, build_id_reply, release_reply, init_settled, import_failed, import_done,
  resized_to, typed, pointer_pressed, byte_arrived, progress_made, download_broke, emulator_started,
  form_submitted, key_pressed, timeout, step, run, on_version, Reach, later,
}

module _ {W : Type 0} where
  -- The text on the terminal.
  abbrev pub output_of : Option (Term W) → Text
  output_of none = []
  output_of (some t) = t.output

  -- What was sent to the emulator, the latest first.
  abbrev pub sent_in : List (Effect W) → List SerialData
  sent_in [] = []
  sent_in (serial_sent x ∷ log) = x ∷ sent_in log
  sent_in (fetched _ ∷ log) = sent_in log
  sent_in (imported _ ∷ log) = sent_in log
  sent_in (terminal_created _ ∷ log) = sent_in log
  sent_in (addon_loaded ∷ log) = sent_in log
  sent_in (fitted ∷ log) = sent_in log
  sent_in (resize_observed ∷ log) = sent_in log
  sent_in (opened _ ∷ log) = sent_in log
  sent_in (resized _ _ ∷ log) = sent_in log
  sent_in (terminal_focused ∷ log) = sent_in log
  sent_in (legacy_focused ∷ log) = sent_in log
  sent_in (legacy_scrolled ∷ log) = sent_in log
  sent_in (default_prevented ∷ log) = sent_in log
  sent_in (emulator_created _ ∷ log) = sent_in log
  sent_in (timeout_set _ ∷ log) = sent_in log
  sent_in (error_logged _ ∷ log) = sent_in log

  -- What an event shows: the byte 0xff is not.
  abbrev pub shown_by : Event W → Text
  shown_by (byte_arrived b) = if b == 0xff then [] else b ∷ []
  shown_by _ = []

  abbrev pub shown_by_all : List (Event W) → Text
  shown_by_all [] = []
  shown_by_all (e ∷ es) = shown_by e ++ shown_by_all es

  -- What an event sends, with what was sent before it.
  abbrev pub with_typed : Event W → List SerialData → List SerialData
  with_typed (typed t) sent = text t ∷ sent
  with_typed _ sent = sent

  abbrev pub with_all_typed : List (Event W) → List SerialData → List SerialData
  with_all_typed [] sent = sent
  with_all_typed (e ∷ es) sent = with_all_typed es (with_typed e sent)

module _ {W : Type 0} ⦃d : Double W⦄ (platform : Platform W) where
  -- One step of a running page.
  pub record Runs (e : Event W) (s t : Shell W) : Type 0 where
    pub phase : t.phase ≡ running
    pub output : output_of t.term ≡ output_of s.term ++ shown_by e
    pub input : sent_in t.log ≡ with_typed e (sent_in s.log)

  -- Neither shows nor sends anything.
  abbrev IsQuiet : Shell W → Shell W → Type 0
  IsQuiet s t =
      (t.phase ≡ s.phase) × (output_of t.term ≡ output_of s.term) × (sent_in t.log ≡ sent_in s.log)

  scale-IsQuiet : (s : Shell W) → IsQuiet s (apply_terminal_scale platform s)
  unfolding apply_terminal_scale
  scale-IsQuiet s = ground arith

  status_timeout-IsQuiet : (s : Shell W) → IsQuiet s (status_timeout platform s)
  unfolding status_timeout
  status_timeout-IsQuiet s = scale-IsQuiet _

  ready-IsQuiet : (s : Shell W) → IsQuiet s (ready platform s)
  unfolding ready finish_status apply_terminal_scale
  ready-IsQuiet s = ground arith

  step-Runs :
      (e : Event W) (s : Shell W)
      → IsBooted s
      → IsUnwired s
      → s.phase ≡ running
      → Runs e s (step platform e s)
  unfolding step
  step-Runs (version_reply reply) s v u p =
      unfold on_version version_arrived in ground (arith, append-nil (output_of s.term))
  step-Runs (build_id_reply reply) s v u p = ground (arith, append-nil (output_of s.term))
  step-Runs (release_reply reply) s v u p =
      unfold release_arrived in ground (arith, append-nil (output_of s.term))
  step-Runs (init_settled error) s v u p = ground (arith, append-nil (output_of s.term))
  step-Runs (import_failed m) s v u p = ground (arith, append-nil (output_of s.term))
  step-Runs (import_done error) s v u p = ground (arith, append-nil (output_of s.term))
  step-Runs (resized_to view) s v u p =
      ground (arith, scale-IsQuiet (record s { view = view }), append-nil (output_of s.term))
  step-Runs (typed t) s v u p = unfold send_serial in ground (arith, append-nil (output_of s.term))
  step-Runs pointer_pressed s v u p = ground (arith, append-nil (output_of s.term))
  step-Runs (byte_arrived b) s v u p =
      unfold serial_byte write in ground (arith, append-nil (output_of s.term))
  step-Runs (progress_made e) s v u p = ground (arith, append-nil (output_of s.term))
  step-Runs download_broke s v u p =
      unfold download_failed in ground (arith, append-nil (output_of s.term))
  step-Runs emulator_started s v u p =
      ground (arith, ready-IsQuiet s, append-nil (output_of s.term))
  step-Runs form_submitted s v u p = ground (arith, append-nil (output_of s.term))
  step-Runs (key_pressed k) s v u p = ground (arith, append-nil (output_of s.term))
  step-Runs timeout s v u p =
      ground (arith, status_timeout-IsQuiet s, append-nil (output_of s.term))

  -- From a running page that a run comes to, whatever events follow: the page keeps running, the
  -- terminal shows the bytes of the emulator in their order, all but 0xff, after what it showed
  -- before, and the emulator is sent what is typed, in its order, and nothing else.
  pub run_serial :
      {page : Page W} (es : List (Event W)) {s : Shell W}
      → Reach platform page s
      → s.phase ≡ running
      → ((run platform es s).phase ≡ running)
        × (output_of (run platform es s).term ≡ output_of s.term ++ shown_by_all es)
        × (sent_in (run platform es s).log ≡ with_all_typed es (sent_in s.log))
  unfolding run
  run_serial [] {s} r p = (p, sym (append-nil (output_of s.term)), refl)
  run_serial (e ∷ es) {s} r p =
      let one = step-Runs e s (Reach-IsBooted platform r) (Reach-IsUnwired platform r) p in
      let rest = run_serial es (later e r) one.phase in
      (
        rest.0,
        rest.1
            ∙ ap (λ t. t ++ shown_by_all es) one.output
            ∙ append_assoc (output_of s.term) (shown_by e) (shown_by_all es),
        rest.2 ∙ ap (with_all_typed es) one.input,
      )
