-- ===== src/Shell/Emulator.antt =====
-- The emulator: what it is made from, and that it is made once.
use alpenglow.Prelude.{
  Text, IsText, units, true, ◌≡◌, refl, sym, List, [], ◌∷◌, ◌++◌, none, some, arith, Option-cases,
  inl, inr, ◌∙◌,
}
use mathlib.Core.Path.{subst}
use mathlib.Core.Option.{none-ne-some, some-injective}
use alpenglow.Uri.{encode_uri_component}
use alpenglow.Double.{Double}
use alpenglow.Shell.State.{Shell, Page, Platform, running, EmulatorConfig}
use alpenglow.Shell.BuildId.{asset}
use alpenglow.Shell.BuildId.Assets.{IsAsset, asset-IsAsset}
use alpenglow.Shell.Boot.{emulator_config, ready, serial_byte, download_failed}
use alpenglow.Shell.Keyboard.{send_serial}
use alpenglow.Shell.Release.{version_arrived, release_arrived}
use alpenglow.Shell.Screen.{write, finish_status, apply_terminal_scale, status_timeout}
use alpenglow.Shell.Legacy.{IsUnwired, Reach-IsUnwired}
use alpenglow.Shell.Invariant.{IsBooted, Reach-IsBooted}
use alpenglow.Shell.Events.{
  Event, version_reply, release_reply, resized_to, typed, byte_arrived, download_broke,
  emulator_started, timeout, step, run, on_version, Reach, later,
}

-- Every file that the emulator loads carries the build id, and the kernel's command line is the
-- one that was made for the terminal.
pub record UsesBuild (build_id cmdline : Text) (c : EmulatorConfig) : Type 0 where
  pub wasm : IsAsset build_id (units "/v86/v86.wasm") c.wasm_path
  pub bios : IsAsset build_id (units "/v86/seabios.bin") c.bios_url
  pub vga_bios : IsAsset build_id (units "/v86/vgabios.bin") c.vga_bios_url
  pub bzimage : IsAsset build_id (units "/v86/alpenglow-v86-vmlinuz") c.bzimage_url
  pub initrd : IsAsset build_id (units "/v86/alpenglow-v86-initrd.cpio.gz") c.initrd_url
  pub kernel : c.cmdline ≡ cmdline
  pub memory : c.memory_size ≡ 268435456
  pub starts : c.autostart ≡ true

module _ (build_id cmdline version : Text) where
  -- The configuration, where the build id is encoded as the version.
  abbrev pub config_for : EmulatorConfig
  config_for = record {
    wasm_path = units "/v86/v86.wasm" ++ (units "?v=" ++ version);
    bios_url = units "/v86/seabios.bin" ++ (units "?v=" ++ version);
    vga_bios_url = units "/v86/vgabios.bin" ++ (units "?v=" ++ version);
    bzimage_url = units "/v86/alpenglow-v86-vmlinuz" ++ (units "?v=" ++ version);
    initrd_url = units "/v86/alpenglow-v86-initrd.cpio.gz" ++ (units "?v=" ++ version);
    cmdline = cmdline;
    memory_size = 268435456;
    autostart = true;
  }

  pub emulator_config_lem :
      encode_uri_component build_id ≡ some version
      → emulator_config build_id cmdline ≡ some config_for
  unfolding emulator_config asset
  emulator_config_lem e = rw e

  asset_lem :
      (path : Text)
      → encode_uri_component build_id ≡ some version
      → asset build_id path ≡ some (path ++ (units "?v=" ++ version))
  unfolding asset
  asset_lem path e = rw e

  config_for-UsesBuild :
      IsText build_id
      → encode_uri_component build_id ≡ some version
      → UsesBuild build_id cmdline config_for
  config_for-UsesBuild h e = record {
    wasm = asset-IsAsset build_id _ h (asset_lem _ e);
    bios = asset-IsAsset build_id _ h (asset_lem _ e);
    vga_bios = asset-IsAsset build_id _ h (asset_lem _ e);
    bzimage = asset-IsAsset build_id _ h (asset_lem _ e);
    initrd = asset-IsAsset build_id _ h (asset_lem _ e);
    kernel = refl;
    memory = refl;
    starts = refl;
  }

emulator_config-none :
    (build_id cmdline : Text)
    → encode_uri_component build_id ≡ none
    → emulator_config build_id cmdline ≡ none
unfolding emulator_config asset
emulator_config-none build_id cmdline e = rw e

emulator_config-UsesBuild :
    (build_id cmdline : Text) {c : EmulatorConfig}
    → IsText build_id
    → emulator_config build_id cmdline ≡ some c
    → UsesBuild build_id cmdline c
emulator_config-UsesBuild build_id cmdline h e =
    elim (Option-cases (encode_uri_component build_id)) [
      | inl thrown ↦
          absurd (none-ne-some _ (sym (emulator_config-none build_id cmdline thrown) ∙ e))
      | inr (v, found) ↦
          subst (UsesBuild build_id cmdline)
            (some-injective _ _ (sym (emulator_config_lem build_id cmdline v found) ∙ e))
            (config_for-UsesBuild build_id cmdline v h found)
    ]

module _ {W : Type 0} ⦃d : Double W⦄ (platform : Platform W) where
  abbrev SameEmulator : Shell W → Shell W → Type 0
  SameEmulator s t =
      (t.emulator ≡ s.emulator)
      × (t.build_id ≡ s.build_id)
      × (t.cmdline ≡ s.cmdline)
      × (t.phase ≡ s.phase)

  scale-SameEmulator : (s : Shell W) → SameEmulator s (apply_terminal_scale platform s)
  unfolding apply_terminal_scale
  scale-SameEmulator s = ground arith

  status_timeout-SameEmulator : (s : Shell W) → SameEmulator s (status_timeout platform s)
  unfolding status_timeout
  status_timeout-SameEmulator s = scale-SameEmulator _

  ready-SameEmulator : (s : Shell W) → SameEmulator s (ready platform s)
  unfolding ready finish_status apply_terminal_scale
  ready-SameEmulator s = ground arith

  step-SameEmulator :
      (e : Event W) (s : Shell W)
      → IsBooted s
      → IsUnwired s
      → s.phase ≡ running
      → SameEmulator s (step platform e s)
  unfolding step
  step-SameEmulator (version_reply reply) s v u p =
      unfold on_version version_arrived in ground arith
  step-SameEmulator (release_reply reply) s v u p = unfold release_arrived in ground arith
  step-SameEmulator (resized_to view) s v u p =
      ground (arith, scale-SameEmulator (record s { view = view }))
  step-SameEmulator (typed t) s v u p = unfold send_serial in ground arith
  step-SameEmulator (byte_arrived b) s v u p = unfold serial_byte write in ground arith
  step-SameEmulator download_broke s v u p = unfold download_failed in ground arith
  step-SameEmulator emulator_started s v u p = ground (arith, ready-SameEmulator s)
  step-SameEmulator timeout s v u p = ground (arith, status_timeout-SameEmulator s)
  step-SameEmulator _ s v u p = ground arith

  -- From a state of a run that has an emulator, whatever events follow: the emulator is never
  -- replaced, and the build id and the command line that it was made from do not change.
  pub run_emulator :
      {page : Page W} (es : List (Event W)) {s : Shell W} {c : EmulatorConfig}
      → Reach platform page s
      → s.emulator ≡ some c
      → ((run platform es s).emulator ≡ some c)
        × ((run platform es s).build_id ≡ s.build_id)
        × ((run platform es s).cmdline ≡ s.cmdline)
  unfolding run
  run_emulator [] r e = (e, refl, refl)
  run_emulator (x ∷ es) {s} r e =
      let v = Reach-IsBooted platform r in
      let one = step-SameEmulator x s v (Reach-IsUnwired platform r) (ground arith) in
      let rest = run_emulator es (later x r) (one.0 ∙ e) in (rest.0, rest.1 ∙ one.1, rest.2 ∙ one.2)

  -- In every state of a run that has an emulator, if the build id is made of UTF-16 code units:
  -- the addresses of its five files carry the build id, and it was made with the command line of
  -- the script, 256 MiB, and to start by itself.
  pub Reach-UsesBuild :
      {page : Page W} {s : Shell W} {c : EmulatorConfig}
      → Reach platform page s
      → s.emulator ≡ some c
      → IsText s.build_id
      → UsesBuild s.build_id s.cmdline c
  Reach-UsesBuild {s} r e h =
      emulator_config-UsesBuild s.build_id s.cmdline h
        (rw e at ((Reach-IsBooted platform r).made_from))
