-- ===== src/Site/Tests.antt =====
-- The theorems on the site at concrete inputs.
use alpenglow.Prelude.{
  Text, units, true, ◌≡◌, ◌⊎◌, refl, Option, none, some, [], ◌∷◌, ◌++◌, all, if◌then◌else◌, text_eq,
}
use alpenglow.Site.Document.{
  Settled, resolved, rejected, Request, Response, RouteArtifact, render_document, render_response,
  html_open, head_open, body_close,
}
use alpenglow.Site.Build.{FilePath, FileSystem, path_eq, build_request}
use alpenglow.Site.Build.Output.{IsApart}
use alpenglow.Site.Server.{handler}
use alpenglow.Site.Server.Handler.{IsRead, is_slash_unit, IsAsked, IsServed, missing, handler_lem}

abbrev page_start : Text
page_start = units "<!DOCTYPE html>"

abbrev page_text : Text
page_text =
    page_start
    ++ (html_open
        ++ ([] ++ (head_open ++ (units "</head><body>hi" ++ (body_close ++ units "</html>")))))

abbrev prerender_page : RouteArtifact → Request → Settled Text
prerender_page _ _ = resolved page_text

abbrev prerender_broken : RouteArtifact → Request → Settled Text
prerender_broken _ _ = rejected (units "aborted")

abbrev get : Text → Request
get url = record { method = units "GET"; url = url }

abbrev favicon : Response
favicon = record { status = 200; content_type = some (units "image/png"); body = units "PNG" }

abbrev try_favicon : FilePath → Text → Settled (Option Response)
try_favicon _ path = resolved (if text_eq path (units "/favicon.png") then some favicon else none)

abbrev out_dir : FilePath
out_dir = units "out" ∷ []

abbrev public_dir : FilePath
public_dir = units "public" ∷ []

abbrev disk : FileSystem
disk path =
    if path_eq (units "public" ∷ units "favicon.png" ∷ []) path
    then some (units "PNG")
    else if path_eq (units "out" ∷ units "old.js" ∷ []) path
    then some (units "old")
    else none

public-IsApart : IsApart public_dir out_dir
public-IsApart rest = refl

rendered : (html : Text) × (render_document prerender_page build_request ≡ resolved html)
unfolding render_document
rendered = (_, refl)

broken : render_document prerender_broken build_request ≡ rejected (units "aborted")
unfolding render_document
broken = refl

handler_lem_example :
    let request = get (units "/favicon.png/") in
    let answer = handler (λ url. url) prerender_page try_favicon public_dir request in
    ((all is_slash_unit request.url ≡ true) × (answer ≡ render_response prerender_page request))
    ⊎ ((asked : Text) × IsAsked request.url asked
        × ((IsRead request.method × IsServed (try_favicon public_dir asked) answer)
            ⊎ (¬ (IsRead request.method) × (answer ≡ resolved missing))))
handler_lem_example =
    handler_lem (λ url. url) prerender_page try_favicon public_dir (get (units "/favicon.png/"))
