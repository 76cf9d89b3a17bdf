-- ===== src/Shell/Samples.antt =====
-- A page, a window and a platform on which the theorems and the tests are run, with numbers in
-- thousandths.
use alpenglow.Prelude.{units, true, false, refl, none, some, List, [], ◌∷◌, map}
use alpenglow.Double.Fixed.{Fixed, fixed_double, print}
use alpenglow.Shell.State.{Page, View, Platform, Meter, Shell}
use alpenglow.Shell.BuildId.{body}
use alpenglow.Shell.Boot.{load}
use alpenglow.Shell.Progress.{IsShown}
use alpenglow.Shell.Keyboard.Keys.{lower_unit}
use alpenglow.Shell.Events.{Event, build_id_reply, init_settled, import_done, run}

abbrev pub sample_meter : Meter Fixed
sample_meter = record { value = some 0; label = units "0%" }

abbrev pub sample_page : Page Fixed
sample_page = record {
  boot_status = some false;
  boot_message = some (units "loading alpenglow shell");
  boot_progress = some sample_meter;
  screen = some [];
  legacy_pre = some (record { hidden = false; display = []; content = [] });
  command_form = some false;
  command_input = some [];
  release_link = some (record { label = units "latest release"; href = units "/releases/latest" });
  xterm_host = none;
}

-- The page without a mount point.
abbrev pub bare_page : Page Fixed
bare_page = record sample_page { screen = none }

-- 1280 by 800 pixels
abbrev pub sample_view : View Fixed
sample_view = record { inner_width = some 1280000; inner_height = some 800000 }

abbrev pub sample_platform : Platform Fixed
sample_platform = record {
  has_options = true;
  has_resize = true;
  has_observe_resize = true;
  fit_cols = λ _ _. some 120000;
  fit_rows = λ _ _. some 40000;
  uri_error = units "URI malformed";
  lower_case = map lower_unit;
}

pub sample_meter-IsShown : IsShown sample_meter
unfolding print
sample_meter-IsShown = record { low = refl; high = refl; text = refl }

-- A boot with the build id "a1", whose fetch ends before `init()` does.
abbrev pub sample_boot : List (Event Fixed)
sample_boot = build_id_reply (body (units "a1")) ∷ init_settled none ∷ import_done none ∷ []

pub sample_shell : Shell Fixed
sample_shell = run sample_platform sample_boot (load sample_platform sample_page sample_view)
