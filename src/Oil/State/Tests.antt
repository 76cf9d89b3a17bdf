-- ===== src/Oil/State/Tests.antt =====
-- The map of installed packages with one package.
use alpenglow.Prelude.{true, ◌≡◌, refl, some, [], ◌∷◌, units}
use alpenglow.Oil.State.{InstalledPackage, InstallState, mark_installed}

abbrev pinned_vim : InstalledPackage
pinned_vim = record { name = units "vim"; version = units "1"; install_date = 5; pinned = true }

abbrev state : InstallState
state = (units "vim", pinned_vim) ∷ []

keeps_pin :
    mark_installed state (units "vim") (some (units "2")) 60
    ≡ (units "vim", record pinned_vim { version = units "2"; install_date = 60 }) ∷ []
unfolding mark_installed
keeps_pin = refl
