-- ===== src/Site/App/Lookup.antt =====
-- The elements that site/src/shell.js looks up when it starts (lines 3-10).
use package.text.Mathlib.Text.{◌==◌}
use alpenglow.Prelude.{
  String, Bool, false, ◌≡◌, refl, Option, none, some, List, [], ◌∷◌, ◌++◌, if◌then◌else◌,
}
use alpenglow.Site.App.{Node, Nodes, text, element, nil, cons, app}

abbrev attribute : String → List (String × String) → Option String
attribute name [] = none
attribute name ((n, v) ∷ rest) = if n == name then some v else attribute name rest

abbrev names : String → Option String → Bool
names id none = false
names id (some v) = v == id

-- The tags of the elements with an id, in the order of the document; `getElementById` returns the
-- first.
mutual
  pub tags_of : String → Node → List String
  tags_of id (text _) = []
  tags_of id (element tag attributes children) =
      let inner = tags_of_all id children in
      if names id (attribute "id" attributes) then tag ∷ inner else inner

  tags_of_all : String → Nodes → List String
  tags_of_all id nil = []
  tags_of_all id (cons node rest) = tags_of id node ++ tags_of_all id rest

-- The constants of the script.
pub data ElementKey : Type 0 where
  boot_status boot_message boot_progress screen : ElementKey
  legacy_pre command_form command_input release_link : ElementKey

pub id_of : ElementKey → String
id_of boot_status = "boot_status"
id_of boot_message = "boot_message"
id_of boot_progress = "boot_progress"
id_of screen = "screen_container"
id_of legacy_pre = "terminal"
id_of command_form = "command_form"
id_of command_input = "command_input"
id_of release_link = "release-link"

-- The kind of element whose properties the script uses: `value` of a meter and of an input,
-- `href` of a link, the "submit" event of a form.
abbrev pub tag_wanted : ElementKey → String
tag_wanted boot_status = "section"
tag_wanted boot_message = "p"
tag_wanted boot_progress = "meter"
tag_wanted screen = "main"
tag_wanted legacy_pre = "pre"
tag_wanted command_form = "form"
tag_wanted command_input = "input"
tag_wanted release_link = "a"

-- Every element that the script looks up is on the page, once, and of the kind that it is used as.
pub tags_of-app : (key : ElementKey) → tags_of (id_of key) app ≡ tag_wanted key ∷ []
unfolding tags_of tags_of_all id_of app
tags_of-app boot_status = refl
tags_of-app boot_message = refl
tags_of-app boot_progress = refl
tags_of-app screen = refl
tags_of-app legacy_pre = refl
tags_of-app command_form = refl
tags_of-app command_input = refl
tags_of-app release_link = refl
