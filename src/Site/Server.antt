-- ===== src/Site/Server.antt =====
-- site/src/server.ts: the handler of requests, and the start of the server. The URL parser, the
-- renderer of React and `tryServeStatic` of moonshine are parameters.
pub mod Paths
pub mod Handler
use alpenglow.Prelude.{
  ℕ, ◌==◌, Text, units, Bool, true, false, ◌||◌, Option, none, some, if◌then◌else◌, text_eq,
  or_text,
}
use alpenglow.Prelude.Trim.{drop_end}
use alpenglow.Double.{Double, number, or_number}
use alpenglow.Site.Build.{FilePath}
use alpenglow.Site.Document.{
  Settled, resolved, rejected, Request, Response, RouteArtifact, render_response,
}

abbrev pub is_slash : ℕ → Bool
is_slash c = c == b'/'

-- `pathname.replace(/\/+$/, "")`: the match is the whole run of slashes at the end.
strip_slashes : Text → Text
unfolding drop_end
strip_slashes pathname = drop_end is_slash pathname

abbrev pub root_path : Text
root_path = units "/"

pub route_path : Text → Text
unfolding strip_slashes
route_path pathname = or_text (strip_slashes pathname) root_path

pub not_found : Response
not_found = record { status = 404; content_type = none; body = units "Not Found" }

-- GET and HEAD
pub reads : Text → Bool
reads method = text_eq method (units "GET") || text_eq method (units "HEAD")

-- What is answered when the static file was looked for; a rejected promise rejects the handler.
pub serve_static : Settled (Option Response) → Settled Response
unfolding not_found
serve_static (resolved (some response)) = resolved response
serve_static (resolved none) = resolved not_found
serve_static (rejected e) = rejected e

module _ (pathname_of : Text → Text) (prerender : RouteArtifact → Request → Settled Text)
    (try_serve_static : FilePath → Text → Settled (Option Response)) (static_dir : FilePath) where
  pub handler : Request → Settled Response
  unfolding serve_static reads not_found
  handler request =
      let pathname = route_path (pathname_of request.url) in
      if text_eq pathname root_path
      then render_response prerender request
      else if reads request.method
      then serve_static (try_serve_static static_dir pathname)
      else resolved not_found

-- The argument of `createBunServer`.
pub record ServerConfig (W : Type 0) : Type 0 where
  pub port : W
  pub static_dir : FilePath

module _ {W : Type 0} ⦃d : Double W⦄ where
  -- `Number(process.env.PORT) || 3000`; an unset variable is `undefined`, whose number is NaN.
  port_of : Option Text → W
  port_of none = or_number d.nan (number 3000)
  port_of (some t) = or_number (d.of_text t) (number 3000)

  -- Lines 25-27: a server is started only where the file is the program, not an import.
  unfoldable start_server : Bool → Option Text → FilePath → Option (ServerConfig W)
  unfolding port_of
  start_server is_main port static_dir =
      if is_main then some (record { port = port_of port; static_dir = static_dir }) else none
