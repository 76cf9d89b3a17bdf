-- ===== src/Site/App.antt =====
-- site/src/App.tsx, the elements of the page.
pub mod Lookup
use alpenglow.Prelude.{Text, String, units, List, [], ◌∷◌}

unfoldable pub description : Text
description =
    units
      "Alpenglow is an immutable RAM-root Linux distribution with persistent bcachefs-backed state."

unfoldable pub title : Text
title = units "Alpenglow"

-- An element has a tag, attributes and children.
mutual
  pub data Node : Type 0 where
    text : String → Node
    element : String → List (String × String) → Nodes → Node

  pub data Nodes : Type 0 where
    nil : Nodes
    cons : Node → Nodes → Nodes

abbrev leaf : String → List (String × String) → Node
leaf tag attributes = element tag attributes nil

abbrev labelled : String → List (String × String) → String → Node
labelled tag attributes label = element tag attributes (cons (text label) nil)

header : Node
header = element "header" (("className", "boot-top-bar") ∷ ("aria-label", "Alpenglow links") ∷ []) (
    cons
      (labelled "a"
        (("id", "release-link")
          ∷ ("href", "https://github.com/tschk/alpenglow/releases/latest")
          ∷ ("target", "_blank")
          ∷ ("rel", "noopener noreferrer")
          ∷ ("aria-live", "polite")
          ∷ [])
        "latest release")
      (cons (labelled "span" (("className", "boot-top-sep") ∷ ("aria-hidden", "true") ∷ []) "·") (
        cons
          (labelled "a"
            (("href", "https://github.com/tschk/alpenglow")
              ∷ ("target", "_blank")
              ∷ ("rel", "noopener noreferrer")
              ∷ [])
            "GitHub")
          (cons (labelled "span" (("className", "boot-top-sep") ∷ ("aria-hidden", "true") ∷ []) "·")
            (cons
              (labelled "a"
                (("href", "https://tsc.hk")
                  ∷ ("target", "_blank")
                  ∷ ("rel", "noopener noreferrer")
                  ∷ [])
                "tsc.hk")
              nil)))))

form : Node
form =
    element "form" (("id", "command_form") ∷ ("className", "hidden") ∷ ("autoComplete", "off") ∷ [])
      (cons
        (leaf "input" (
          ("id", "command_input")
          ∷ ("autoCapitalize", "none")
          ∷ ("autoComplete", "off")
          ∷ ("autoCorrect", "off")
          ∷ ("spellCheck", "false")
          ∷ ("inputMode", "text")
          ∷ ("aria-label", "Command")
          ∷ []))
        (cons (labelled "button" (("type", "submit") ∷ []) "run") nil))

status : Node
status =
    element "section"
      (("id", "boot_status") ∷ ("className", "boot-status") ∷ ("aria-live", "polite") ∷ [])
      (cons (labelled "p" (("id", "boot_message") ∷ []) "loading alpenglow shell") (
        cons
          (labelled "meter"
            (("id", "boot_progress") ∷ ("min", "0") ∷ ("max", "100") ∷ ("value", "0") ∷ []) "0%")
          nil))

main_element : Node
main_element =
    element "main"
      (("id", "screen_container")
        ∷ ("className", "page-shell")
        ∷ ("aria-label", "Alpenglow OS")
        ∷ [])
      (cons (leaf "div" (("className", "hidden") ∷ [])) (
        cons (leaf "canvas" (("className", "hidden") ∷ [])) (
          cons
            (leaf "pre" (
              ("id", "terminal")
              ∷ ("className", "hidden")
              ∷ ("tabIndex", "0")
              ∷ ("aria-label", "Alpenglow console")
              ∷ []))
            (cons form (cons status nil)))))

pub app : Node
unfolding header main_element form status
app = element "div" (("data-crepus-root", "true") ∷ []) (
    cons header (
      cons main_element (
        cons
          (labelled "footer" (("className", "site-credit") ∷ [])
            "built with crepuscularity + moonshine")
          nil)))
