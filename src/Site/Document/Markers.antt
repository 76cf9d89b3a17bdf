-- ===== src/Site/Document/Markers.antt =====
-- The three insertions of `renderDocument`.
use alpenglow.Prelude.{Text, true, ◌≡◌}
use alpenglow.Site.Document.{html_open, head_open, body_close}
use alpenglow.Site.Document.Replace.{is_clear}

-- A rendered document, around its three markers; the markers are not in the parts before them.
pub record IsDocument (a b c : Text) : Type 0 where
  pub doctype : is_clear html_open a ≡ true
  pub before_head : is_clear head_open a ≡ true
  pub in_html : is_clear head_open b ≡ true
  pub before_body : is_clear body_close a ≡ true
  pub body_html : is_clear body_close b ≡ true
  pub body : is_clear body_close c ≡ true
