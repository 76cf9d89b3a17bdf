-- ===== src/Site/Build/Output.antt =====
-- What the directory holds after a build.
use alpenglow.Prelude.{
  Text, units, true, false, ◌≡◌, refl, sym, ap, ◌∙◌, none, some, [], ◌∷◌, ◌++◌, if◌then◌else◌,
  text_eq, text_eq_iff, arith, Option-cases, inl, inr,
}
use mathlib.Core.Option.{some-injective}
use alpenglow.Prelude.{Bool-cases}
use alpenglow.Site.Document.{Settled, resolved, rejected, Request, RouteArtifact, render_document}
use alpenglow.Site.Build.{
  FilePath, FileSystem, path_eq, path_in, remove_dir, copy_dir, write_file, bundled, unbundled,
  shell_name, index_name, build_request, build_site, write_index,
}

text_eq_refl : (t : Text) → text_eq t t ≡ true
text_eq_refl t = (text_eq_iff t t).1 refl

path_in-append : (dir rest : FilePath) → path_in dir (dir ++ rest) ≡ some rest
path_in-append [] rest = refl
path_in-append (d ∷ ds) rest = rw (text_eq_refl d) (path_in-append ds rest)

path_eq-append : (dir p q : FilePath) → path_eq (dir ++ p) (dir ++ q) ≡ path_eq p q
path_eq-append [] p q = refl
path_eq-append (d ∷ ds) p q = rw (text_eq_refl d) (path_eq-append ds p q)

-- A path that is not in a directory is none of its files.
path_eq-outside : (dir p q : FilePath) → path_in dir p ≡ none → path_eq (dir ++ q) p ≡ false
path_eq-outside [] p q h = cc
path_eq-outside (d ∷ ds) [] q h = refl
path_eq-outside (d ∷ ds) (s ∷ p) q h = ground (arith, path_eq-outside ds p q)

path_in_lem : (ds q : FilePath) {rest : FilePath} → path_in ds q ≡ some rest → q ≡ ds ++ rest
path_in_lem [] q h = some-injective _ _ h
path_in_lem (d ∷ ds) [] h = cc
path_in_lem (d ∷ ds) (s ∷ q) {rest} h = elim (Bool-cases (text_eq d s)) [
  | inl same ↦
      ap (λ c. c ∷ q) (sym ((text_eq_iff d s).0 same))
      ∙ ap (λ p. d ∷ p) (path_in_lem ds q (rw same at h))
  | inr other ↦ cc (rw other at h)
]

-- The public directory lies outside the output.
abbrev pub IsApart : FilePath → FilePath → Type 0
IsApart public_dir out_dir = (rest : FilePath) → path_in out_dir (public_dir ++ rest) ≡ none

module _ (public_dir out_dir : FilePath) (files : FileSystem) where
  copied_at :
      (rest : FilePath)
      → IsApart public_dir out_dir
      → copy_dir public_dir out_dir (remove_dir out_dir files) (out_dir ++ rest)
        ≡ files (public_dir ++ rest)
  unfolding copy_dir remove_dir
  copied_at rest h = ground (arith, path_in-append out_dir rest, h rest)

  copied_outside :
      (p : FilePath)
      → path_in out_dir p ≡ none
      → copy_dir public_dir out_dir (remove_dir out_dir files) p ≡ files p
  unfolding copy_dir remove_dir
  copied_outside p h = ground arith

module _ (prerender : RouteArtifact → Request → Settled Text) (public_dir out_dir : FilePath)
    (files : FileSystem) where
  -- If the public directory lies outside the output and the page is rendered, the build succeeds,
  -- and the output holds the page as index.html, the bundle as shell.js and otherwise just the
  -- public files: at any path in it nothing of an earlier build is left, and at any path outside
  -- it nothing has changed.
  pub build_site_files :
      (script html : Text) (q : FilePath)
      → IsApart public_dir out_dir
      → render_document prerender build_request ≡ resolved html
      → let built = build_site prerender public_dir (bundled script) out_dir files in
        (built.outcome ≡ resolved out_dir)
        × (built.files q ≡ elim (path_in out_dir q) [
          | none ↦ files q
          | some rest ↦
              if path_eq (index_name ∷ []) rest
              then some html
              else if path_eq (shell_name ∷ []) rest
              then some script
              else files (public_dir ++ rest)
        ])
  unfolding build_site write_file
  build_site_files script html q h e = elim (Option-cases (path_in out_dir q)) [
    | inl outside ↦
        rw (e, write_index, outside)
          (
            refl,
            rw
                (
                  path_eq-outside out_dir q (index_name ∷ []) outside,
                  path_eq-outside out_dir q (shell_name ∷ []) outside,
                )
                (copied_outside public_dir out_dir files q outside),
          )
    | inr (rest, inside) ↦
        rw (e, write_index, inside)
          (
            refl,
            rw
                (
                  path_in_lem out_dir q inside,
                  path_eq-append out_dir (index_name ∷ []) rest,
                  path_eq-append out_dir (shell_name ∷ []) rest,
                  copied_at public_dir out_dir files rest h,
                )
                refl,
          )
  ]

  -- If the public directory lies outside the output, a build without a bundle throws, and the
  -- output holds the public files and no others; nothing outside it has changed.
  pub build_site_unbundled :
      (q : FilePath)
      → IsApart public_dir out_dir
      → let built = build_site prerender public_dir unbundled out_dir files in
        (built.outcome ≡ rejected (units "shell bundle failed"))
        × (built.files q
            ≡ elim (path_in out_dir q) [ none ↦ files q | some rest ↦ files (public_dir ++ rest) ])
  unfolding build_site
  build_site_unbundled q h = elim (Option-cases (path_in out_dir q)) [
    | inl outside ↦ rw outside (refl, copied_outside public_dir out_dir files q outside)
    | inr (rest, inside) ↦
        rw inside
          (refl, rw (path_in_lem out_dir q inside) (copied_at public_dir out_dir files rest h))
  ]

  -- If the public directory lies outside the output, a build whose page cannot be rendered passes
  -- the error on, and the output holds the public files and the bundle as shell.js but no new
  -- index.html; nothing outside it has changed.
  pub build_site_unrendered :
      (script m : Text) (q : FilePath)
      → IsApart public_dir out_dir
      → render_document prerender build_request ≡ rejected m
      → let built = build_site prerender public_dir (bundled script) out_dir files in
        (built.outcome ≡ rejected m)
        × (built.files q ≡ elim (path_in out_dir q) [
          | none ↦ files q
          | some rest ↦
              if path_eq (shell_name ∷ []) rest then some script else files (public_dir ++ rest)
        ])
  unfolding build_site write_file
  build_site_unrendered script m q h e = elim (Option-cases (path_in out_dir q)) [
    | inl outside ↦
        rw (e, write_index, outside)
          (
            refl,
            rw (path_eq-outside out_dir q (shell_name ∷ []) outside)
                (copied_outside public_dir out_dir files q outside),
          )
    | inr (rest, inside) ↦
        rw (e, write_index, inside)
          (
            refl,
            rw
                (
                  path_in_lem out_dir q inside,
                  path_eq-append out_dir (shell_name ∷ []) rest,
                  copied_at public_dir out_dir files rest h,
                )
                refl,
          )
  ]
