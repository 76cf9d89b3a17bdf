-- ===== src/Site/Document.antt =====
-- site/src/document.ts: the rendered page with its head and its script, by three calls of
-- `String.prototype.replace`. The renderer of React (`reactRenderer.prerender`) is a parameter.
pub mod Replace
pub mod Markers
use mathlib.Core.Option
use alpenglow.Prelude.{
  ℕ, ◌==◌, Text, String, units, Bool, true, false, not, ◌&&◌, Option, none, some, List, [], ◌∷◌,
  ◌++◌, if◌then◌else◌, strip_prefix,
}
use alpenglow.Site.App.{description, title}
use alpenglow.Site.Styles.{global_css}

-- A promise that is settled: the value, or the message of the error.
pub data Settled (A : Type 0) : Type 0 where
  resolved : A → Settled A
  rejected : Text → Settled A

infixl 5 ◌>>=◌
abbrev pub ◌>>=◌ : {A B : Type 0} → Settled A → (A → Settled B) → Settled B
resolved a >>= k = k a
rejected m >>= k = rejected m

-- What is before the first place where the pattern stands, and what is behind it.
pub find_first : Text → Text → Option (Text × Text)
find_first pattern [] = Option.map (λ rest. ([], rest)) (strip_prefix pattern [])
find_first pattern (c ∷ t) =
    let later = Option.map (λ (p : Text × Text). (c ∷ p.0, p.1)) (find_first pattern t) in
    elim (strip_prefix pattern (c ∷ t)) [ none ↦ later | some rest ↦ some ([], rest) ]

-- GetSubstitution of ECMAScript for a text pattern: `$$`, `$&`, `$` with a backquote and `$'` stand
-- for a dollar, the match, and what is before and behind it.
pub expand : Text → Text → Text → Text → Text
expand matched before after [] = []
expand matched before after (c ∷ []) = c ∷ []
expand matched before after (c ∷ d ∷ t) =
    let plain = c ∷ expand matched before after (d ∷ t) in
    let rest = expand matched before after t in
    if not (c == 36)
    then plain
    else if d == 36
    then 36 ∷ rest
    else if d == 38
    then matched ++ rest
    else if d == 96
    then before ++ rest
    else if d == 39
    then after ++ rest
    else plain

-- `text.replace(pattern, replacement)`
pub replace : Text → Text → Text → Text
replace pattern replacement t = elim (find_first pattern t) [
  | none ↦ t
  | some (before, after) ↦ before ++ (expand pattern before after replacement ++ after)
]

client_entry : Text
client_entry = units "/shell.js"

-- The fields of the route that do not depend on where the repository lies.
pub record RouteArtifact : Type 0 where
  pub id : String
  pub path : String
  pub file : String
  pub mode : String
  pub runtime : String
  pub decision : String
  pub client_entries : List Text

unfoldable pub route : RouteArtifact
unfolding client_entry
route = record {
  id = "home";
  path = "/";
  file = "App.tsx";
  mode = "static";
  runtime = "bun";
  decision = "server";
  client_entries = client_entry ∷ [];
}

pub head_tags : Text
unfolding client_entry description title global_css
head_tags =
    units "<meta charset=\"utf-8\">"
    ++ (units "<meta name=\"viewport\" content=\"width=device-width, initial-scale=1\">"
        ++ (units "<meta name=\"description\" content=\""
            ++ (description
                ++ (units "\">"
                    ++ (units "<title>"
                        ++ (title
                            ++ (units "</title>"
                                ++ (units
                                      "<link rel=\"icon\" href=\"/favicon.png\" type=\"image/png\">"
                                    ++ (units
                                          "<link rel=\"preload\" href=\"/fonts/geist-mono-latin-400-normal.woff2\" as=\"font\" type=\"font/woff2\" crossorigin>"
                                        ++ (units "<link rel=\"modulepreload\" href=\""
                                            ++ (client_entry
                                                ++ (units "\">"
                                                    ++ (units "<style>"
                                                        ++ (global_css
                                                            ++ units "</style>"))))))))))))))

pub body_tags : Text
unfolding client_entry
body_tags = units "<script type=\"module\" src=\"" ++ (client_entry ++ units "\"></script>")

unfoldable pub html_open : Text
html_open = units "<html>"

pub html_lang : Text
html_lang = units "<html lang=\"en\">"

unfoldable pub head_open : Text
head_open = units "<head>"

unfoldable pub body_close : Text
body_close = units "</body>"

pub decorate : Text → Text
decorate html =
    replace body_close (body_tags ++ body_close)
      (replace head_open (head_open ++ head_tags) (replace html_open html_lang html))

pub record Request : Type 0 where
  pub method : Text
  pub url : Text

-- `content_type` is the header that the code gives, if it gives one.
pub record Response : Type 0 where
  pub status : ℕ
  pub content_type : Option Text
  pub body : Text

module _ (prerender : RouteArtifact → Request → Settled Text) where
  unfoldable pub render_document : Request → Settled Text
  unfolding decorate
  render_document request = do html ← prerender route request; resolved (decorate html)

  pub render_response : Request → Settled Response
  unfolding render_document
  render_response request = do
    html ← render_document request
    resolved (record {
      status = 200;
      content_type = some (units "text/html; charset=utf-8");
      body = html;
    })
