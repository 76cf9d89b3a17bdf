-- ===== src/Shell/Success.antt =====
-- A boot in which nothing fails comes to a running page, whichever of its two waits ends first.
use alpenglow.Prelude.{
  true, false, ◌≡◌, List, [], ◌∷◌, none, some, arith, if◌then◌else◌, Option-cases, ◌∙◌, ap, sym,
  inl, inr,
}
use mathlib.Core.Path.{subst}
use alpenglow.Double.{Double}
use alpenglow.Uri.{encode_uri_component}
use alpenglow.Uri.WellFormed.{WellFormed, encode_uri_component-ne-none_iff}
use alpenglow.Shell.State.{
  Shell, Page, View, Platform, running, importing, Host, mounting, awaiting_build_id,
}
use alpenglow.Shell.Boot.{load, terminal_mounted, start_emulator, import_library}
use alpenglow.Shell.BuildId.{Reply, settle_build_id, initial_build_id, read_build_id}
use alpenglow.Shell.Emulator.{emulator_config_lem}
use alpenglow.Shell.Invariant.{exists}
use alpenglow.Shell.Keyboard.{wire_legacy_keyboard}
use alpenglow.Shell.Release.{start_release}
use alpenglow.Shell.Screen.{mount_begin, mount_end, apply_terminal_scale}
use alpenglow.Shell.Events.{build_id_reply, init_settled, import_done, step, run, settle}

module _ {W : Type 0} ⦃d : Double W⦄ (platform : Platform W) where
  import_done-running :
      (s : Shell W)
      → s.phase ≡ importing
      → WellFormed s.build_id
      → ((step platform (import_done none) s).phase ≡ running)
        × (exists (step platform (import_done none) s).emulator ≡ true)
  unfolding step start_emulator wire_legacy_keyboard
  import_done-running s h w = elim (Option-cases (encode_uri_component s.build_id)) [
    | inl thrown ↦ absurd ((encode_uri_component-ne-none_iff s.build_id).1 w thrown)
    | inr (v, found) ↦ ground (arith, emulator_config_lem s.build_id s.cmdline v found)
  ]

  load_lem :
      (page : Page W) (view : View W) {children : List Host}
      → page.screen ≡ some children
      → let s = load platform page view in
        (s.phase ≡ mounting) × (s.build_id ≡ initial_build_id) × (s.build_id_settled ≡ false)
  unfolding load start_release mount_begin
  load_lem page view h = ground arith

  mounted_lem :
      (s : Shell W)
      → let t = step platform (init_settled none) s in
        s.phase ≡ mounting
        → (t.phase ≡ (if s.build_id_settled then importing else awaiting_build_id))
          × (t.build_id ≡ s.build_id)
          × (t.build_id_settled ≡ s.build_id_settled)
  unfolding step terminal_mounted mount_end apply_terminal_scale
  mounted_lem s h = ground arith

  settle_lem :
      (reply : Reply) (s : Shell W)
      → let t = step platform (build_id_reply reply) s in
        s.build_id_settled ≡ false
        → (t.build_id ≡ read_build_id reply s.build_id)
          × (t.build_id_settled ≡ true)
          × (s.phase ≡ mounting → t.phase ≡ mounting)
          × (s.phase ≡ awaiting_build_id → t.phase ≡ importing)
  unfolding step settle settle_build_id import_library
  settle_lem reply s h = ground arith

  -- If the page has a mount point, `init()` resolves, and the build id that arrives (or "dev") can
  -- be encoded, then with the arrival of the library the emulator exists and the page runs,
  -- whether the build id or the terminal comes first.
  pub boot_succeeds :
      (page : Page W) (view : View W) (reply : Reply) {children : List Host}
      → page.screen ≡ some children
      → WellFormed (read_build_id reply initial_build_id)
      → let s = load platform page view in
        let id_first =
          run platform (build_id_reply reply ∷ init_settled none ∷ import_done none ∷ []) s in
        let terminal_first =
          run platform (init_settled none ∷ build_id_reply reply ∷ import_done none ∷ []) s in
        (id_first.phase ≡ running)
        × (exists id_first.emulator ≡ true)
        × (terminal_first.phase ≡ running)
        × (exists terminal_first.emulator ≡ true)
  unfolding run
  boot_succeeds page view reply h w =
      let s = load platform page view in
      let start = load_lem page view h in
      let id = settle_lem reply s start.2 in
      let both = mounted_lem (step platform (build_id_reply reply) s) (id.2 start.0) in
      let terminal = mounted_lem s start.0 in
      let t = step platform (init_settled none) s in
      let waiting : t.phase ≡ awaiting_build_id = ground arith in
      let unsettled : t.build_id_settled ≡ false = terminal.2 ∙ start.2 in
      let late = settle_lem reply t unsettled in
      let a = step platform (init_settled none) (step platform (build_id_reply reply) s) in
      let a_importing : a.phase ≡ importing =
        both.0 ∙ ap (λ b. if b then importing else awaiting_build_id) id.1 in
      let a_id : a.build_id ≡ read_build_id reply initial_build_id =
        both.1 ∙ id.0 ∙ ap (read_build_id reply) start.1 in
      let b = step platform (build_id_reply reply) t in
      let b_id : b.build_id ≡ read_build_id reply initial_build_id =
        late.0 ∙ ap (read_build_id reply) (terminal.1 ∙ start.1) in
      let one = import_done-running a a_importing (subst WellFormed (sym a_id) w) in
      let two = import_done-running b (late.3 waiting) (subst WellFormed (sym b_id) w) in
      (one.0, one.1, two.0, two.1)
