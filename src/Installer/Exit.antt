-- ===== src/Installer/Exit.antt =====
-- What `alpenglow-install` does to its target, and what its exit code 0 says.
use mathlib.Core.Path.{subst}
use mathlib.Core.Option.{some-injective}
use alpenglow.Prelude.{
  ℕ, Text, Bool, true, false, not, ◌&&◌, ◌≡◌, refl, sym, ap, ◌∙◌, Option, none, some, List, [], ◌∷◌,
  All, arith, if◌then◌else◌,
}
use alpenglow.Installer.{
  Call, opened, truncated, flushed, synced, sought_end, rewound, wrote, Metadata, Result, ok, err,
  Run, is_block_device,
}
use alpenglow.Installer.Image.{Answers}
use alpenglow.Installer.Command.{
  is_compressed, install_image_maybe_compressed, parse_installer_args, Report, report_result,
  install_to, unless_failed, run_installer_with_draw_and_install, run_installer,
}
use alpenglow.Installer.Safety.{Permitted, install_image_inner-Permitted}
use alpenglow.Installer.Written.{IsInstalled, install_image_inner-IsInstalled}

abbrev is_device : Result Metadata → Bool
is_device (ok m) = is_block_device m
is_device (err e) = false

-- A target is opened for itself alone and never created or truncated, and only a block device is
-- written.
abbrev pub is_device_call : Answers → Call → Bool
is_device_call a (opened o) = o.exclusive && not o.create_new
is_device_call a truncated = false
is_device_call a (wrote bytes) = is_device a.output_metadata
is_device_call a sought_end = is_device a.output_metadata
is_device_call a rewound = is_device a.output_metadata
is_device_call a flushed = is_device a.output_metadata
is_device_call a synced = is_device a.output_metadata

Permitted-is_device_call :
    (a : Answers) (target : Text) (call : Call)
    → Permitted a target false none call
    → is_device_call a call ≡ true
Permitted-is_device_call a target (opened o) h = ground arith
Permitted-is_device_call a target truncated (m, h, file) = let w = h.writable in ground arith
Permitted-is_device_call a target (wrote bytes) (m, h) =
    let w = h.writable in let f = h.open_now in ground arith
Permitted-is_device_call a target sought_end (m, h) =
    let w = h.writable in let f = h.open_now in ground arith
Permitted-is_device_call a target rewound (m, h) =
    let w = h.writable in let f = h.open_now in ground arith
Permitted-is_device_call a target flushed (m, h) =
    let w = h.writable in let f = h.open_now in ground arith
Permitted-is_device_call a target synced (m, h) =
    let w = h.writable in let f = h.open_now in ground arith

All-map :
    {P Q : Call → Type 0}
    → ((call : Call) → P call → Q call)
    → (calls : List Call) → All P calls
    → All Q calls
All-map f [] h = tt
All-map f (call ∷ calls) (p, h) = (f call p, All-map f calls h)

module _ (P : Call → Type 0) where
  unless_failed-All :
      (failure : Option Text) (rest : Report)
      → All P rest.calls
      → All P (unless_failed failure rest).calls
  unless_failed-All none rest h = h
  unless_failed-All (some e) rest h = tt

  report_result-All :
      (calls : List Call) (target : Text) (r : Result ℕ)
      → All P calls
      → All P (report_result calls target r).calls
  report_result-All calls target (ok n) h = h
  report_result-All calls target (err e) h = h

unless_failed-succeeds :
    (failure : Option Text) (rest : Report)
    → (unless_failed failure rest).code ≡ 0
    → unless_failed failure rest ≡ rest
unless_failed-succeeds none rest h = refl
unless_failed-succeeds (some e) rest h = absurd (omega arith)

report_result-succeeds :
    (calls : List Call) (target : Text) (r : Result ℕ)
    → (report_result calls target r).code ≡ 0
    → (n : ℕ) × (r ≡ ok n) × ((report_result calls target r).calls ≡ calls)
report_result-succeeds calls target (ok n) h = (n, refl, refl)
report_result-succeeds calls target (err e) h = absurd (omega arith)

module _ (install : Text → Text → Bool → Run ℕ) (source : Text) where
  install_to-All :
      (P : Call → Type 0) (given : Option Text)
      → ((target : Text) → given ≡ some target → All P (install source target false).calls)
      → All P (install_to install source given).calls
  install_to-All P none h = tt
  install_to-All P (some target) h =
      let r = install source target false in
      report_result-All P r.calls target r.result (h target refl)

  install_to-succeeds :
      (given : Option Text)
      → (install_to install source given).code ≡ 0
      → (target : Text) × (given ≡ some target)
        × (n : ℕ) × ((install source target false).result ≡ ok n)
        × ((install_to install source given).calls ≡ (install source target false).calls)
  install_to-succeeds none h = absurd (omega arith)
  install_to-succeeds (some target) h =
      let r = install source target false in
      let (n, e, same) = report_result-succeeds r.calls target r.result h in
      (target, refl, n, e, same)

module _ (answers : Text → Text → Answers) (draw : Text → Option Text → Option Text)
    (args : List Text) where
  -- Whatever the arguments, and whatever the system answers, the command opens its target for itself
  -- alone, never creates or truncates it, and writes only to a block device.
  pub run_installer-is_device_call :
      (target : Text)
      → (parse_installer_args args).1.1 ≡ some target
      → All
          (λ call. is_device_call (answers (parse_installer_args args).1.0 target) call ≡ true)
          (run_installer answers draw args).calls
  unfolding run_installer run_installer_with_draw_and_install install_image_maybe_compressed
  run_installer-is_device_call target h =
      let (tui, (source, given)) = parse_installer_args args in
      unless_failed-All _ (if tui then draw source given else none) _ (
        install_to-All
          (λ source' target allow_regular_file.
            install_image_maybe_compressed (answers source' target) source' target
              allow_regular_file)
          source _ given
          λ other e.
            let same = some-injective other target (sym e ∙ h) in
            rw same (
              All-map (Permitted-is_device_call (answers source target) target) _ (
                install_image_inner-Permitted (answers source target) target false
                  (is_compressed source) none)))

  -- The exit code 0 says that a target was given and holds the image, all of it stored.
  pub run_installer-IsInstalled :
      (old : List ℕ)
      → (run_installer answers draw args).code ≡ 0
      → (target : Text) × ((parse_installer_args args).1.1 ≡ some target)
        × (n : ℕ) × IsInstalled
            (answers (parse_installer_args args).1.0 target)
            old
            n
            (run_installer answers draw args).calls
  unfolding run_installer run_installer_with_draw_and_install install_image_maybe_compressed
  run_installer-IsInstalled old h =
      let (tui, (source, given)) = parse_installer_args args in
      let install : Text → Text → Bool → Run ℕ = (λ source' target allow_regular_file.
        install_image_maybe_compressed (answers source' target) source' target
          allow_regular_file) in
      let rest = install_to install source given in
      let same = unless_failed-succeeds (if tui then draw source given else none) rest h in
      let (target, e, n, done, calls) =
        install_to-succeeds install source given (sym (ap (λ r. r.code) same) ∙ h) in
      (
        target,
        e,
        n,
        subst (IsInstalled (answers source target) old n) (sym (ap (λ r. r.calls) same ∙ calls)) (
            install_image_inner-IsInstalled (answers source target) target false
              (is_compressed source) none old n done),
      )
