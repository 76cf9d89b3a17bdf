-- ===== src/Site/Server/Handler.antt =====
-- The answer to each request.
use alpenglow.Prelude.{
  ℕ, ◌==◌, Text, units, Bool, [], ◌++◌, ◌≢◌, reverse, true, false, ◌≡◌, ◌⊎◌, refl, Option, none,
  some, all, text_eq, text_eq_iff, inl, inr, Bool-cases,
}
use alpenglow.Site.Build.{FilePath}
use alpenglow.Site.Document.{
  Settled, resolved, rejected, Request, Response, RouteArtifact, render_response,
}
use alpenglow.Site.Server.{is_slash, root_path, route_path, not_found, reads, serve_static, handler}
use alpenglow.Site.Server.Paths.{
  route_path-eq-root_iff, route_path-ends, route_path-parts, route_path-ne-nil,
}
use alpenglow.Prelude.Trim.{head_fails}

abbrev pub IsRead : Text → Type 0
IsRead method = (method ≡ units "GET") ⊎ (method ≡ units "HEAD")

IsRead-cases : (m : Text) → ((IsRead m) × (reads m ≡ true)) ⊎ ((¬ (IsRead m)) × (reads m ≡ false))
unfolding reads
IsRead-cases m = elim (Bool-cases (text_eq m (units "GET"))) [
  | inl get ↦ inl (inl ((text_eq_iff m (units "GET")).0 get), rw get refl)
  | inr not_get ↦ elim (Bool-cases (text_eq m (units "HEAD"))) [
    | inl head ↦ inl (inr ((text_eq_iff m (units "HEAD")).0 head), rw (not_get, head) refl)
    | inr not_head ↦ inr (other not_get not_head, rw (not_get, not_head) refl)
  ]
]
  where
    other : text_eq m (units "GET") ≡ false → text_eq m (units "HEAD") ≡ false → ¬ (IsRead m)
    other not_get not_head (inl e) = cc (not_get, (text_eq_iff m (units "GET")).1 e)
    other not_get not_head (inr e) = cc (not_head, (text_eq_iff m (units "HEAD")).1 e)

root_test : (p : Text) → all is_slash p ≡ true → text_eq (route_path p) root_path ≡ true
root_test p h = (text_eq_iff (route_path p) root_path).1 ((route_path-eq-root_iff p).1 h)

other_test : (p : Text) → all is_slash p ≡ false → text_eq (route_path p) root_path ≡ false
other_test p h = elim (Bool-cases (text_eq (route_path p) root_path)) [
  | inl same ↦ cc (h, (route_path-eq-root_iff p).0 ((text_eq_iff (route_path p) root_path).0 same))
  | inr other ↦ other
]

abbrev pub is_slash_unit : ℕ → Bool
is_slash_unit c = c == 47

-- What a path asks for: all of it but the slashes at its end, which is not empty.
abbrev pub IsAsked : Text → Text → Type 0
IsAsked path asked =
    (slashes : Text) × (path ≡ asked ++ slashes)
    × (all is_slash_unit slashes ≡ true)
    × (asked ≢ [])
    × (head_fails is_slash_unit (reverse asked) ≡ true)

abbrev pub missing : Response
missing = record { status = 404; content_type = none; body = units "Not Found" }

-- The answer for what the search for a static file gives.
abbrev pub IsServed : Settled (Option Response) → Settled Response → Type 0
IsServed found answer =
    ((file : Response) × (found ≡ resolved (some file)) × (answer ≡ resolved file))
    ⊎ ((found ≡ resolved none) × (answer ≡ resolved missing))
    ⊎ ((e : Text) × (found ≡ rejected e) × (answer ≡ rejected e))

serve_static-IsServed : (found : Settled (Option Response)) → IsServed found (serve_static found)
unfolding serve_static not_found
serve_static-IsServed (resolved (some file)) = inl (file, refl, refl)
serve_static-IsServed (resolved none) = inr (inl (refl, refl))
serve_static-IsServed (rejected e) = inr (inr (e, refl, refl))

route_path-IsAsked : (p : Text) → all is_slash p ≡ false → IsAsked p (route_path p)
route_path-IsAsked p h =
    let (slashes, parts, all_slashes) = route_path-parts p h in
    (slashes, parts, all_slashes, route_path-ne-nil p, (route_path-ends p h).0)

module _ (pathname_of : Text → Text) (prerender : RouteArtifact → Request → Settled Text)
    (try_serve_static : FilePath → Text → Settled (Option Response)) (static_dir : FilePath)
    (request : Request) where
  -- A path of slashes alone gets the page, by any method. Any other path asks for what is before the
  -- slashes at its end: by GET or HEAD it gets the static file that is found for that, or 404 if there
  -- is none, or the error with which the search is rejected; by another method it gets 404.
  pub handler_lem :
      let p = pathname_of request.url in
      let answer = handler pathname_of prerender try_serve_static static_dir request in
      ((all is_slash_unit p ≡ true) × (answer ≡ render_response prerender request))
      ⊎ ((asked : Text) × IsAsked p asked
          × ((IsRead request.method × IsServed (try_serve_static static_dir asked) answer)
              ⊎ (¬ (IsRead request.method) × (answer ≡ resolved missing))))
  unfolding handler not_found
  handler_lem =
      let p = pathname_of request.url in
      elim (Bool-cases (all is_slash p)) [
        | inl page ↦ inl (page, rw (root_test p page) refl)
        | inr other ↦ inr (
          route_path p,
          route_path-IsAsked p other,
          (elim (IsRead-cases request.method) [
            | inr unread ↦ inr (unread.0, rw (other_test p other, unread.1) refl)
            | inl read ↦ inl (
              read.0,
              rw (other_test p other, read.1)
                  (serve_static-IsServed (try_serve_static static_dir (route_path p))),
            )
          ]),
        )
      ]
