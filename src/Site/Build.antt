-- ===== src/Site/Build.antt =====
-- site/src/build.ts: the build of the deployable directory. The file system is the contents of the
-- files by path; directories are not kept, and input and output do not fail. The bundler
-- (`Bun.build`) and the renderer of React are parameters.
pub mod Output
use alpenglow.Prelude.{
  Text, units, Bool, true, false, Option, none, some, List, [], ◌∷◌, ◌++◌, if◌then◌else◌, text_eq,
  ◌&&◌,
}
use alpenglow.Site.Document.{Settled, resolved, rejected, Request, RouteArtifact, render_document}

-- A path, by its segments
abbrev pub FilePath : Type 0
FilePath = List Text

abbrev pub FileSystem : Type 0
FileSystem = FilePath → Option Text

abbrev pub path_eq : FilePath → FilePath → Bool
path_eq [] [] = true
path_eq [] (_ ∷ _) = false
path_eq (_ ∷ _) [] = false
path_eq (a ∷ p) (b ∷ q) = text_eq a b && path_eq p q

-- The path from a directory to a file in it.
abbrev pub path_in : FilePath → FilePath → Option FilePath
path_in [] p = some p
path_in (_ ∷ _) [] = none
path_in (d ∷ ds) (s ∷ p) = if text_eq d s then path_in ds p else none

-- `rm(dir, { recursive: true, force: true })`
pub remove_dir : FilePath → FileSystem → FileSystem
remove_dir dir files p = elim (path_in dir p) [ none ↦ files p | some _ ↦ none ]

abbrev pub or_content : Option Text → Option Text → Option Text
or_content none other = other
or_content (some c) other = some c

-- `cp(from, to, { recursive: true })`
pub copy_dir : FilePath → FilePath → FileSystem → FileSystem
copy_dir from to files p = elim (path_in to p) [
  | none ↦ files p
  | some rest ↦ or_content (files (from ++ rest)) (files p)
]

-- `writeFile`
pub write_file : FilePath → Text → FileSystem → FileSystem
write_file q content files p = if path_eq q p then some content else files p

-- `bundle.success` with the text of the bundle, or a failure.
pub data Bundle : Type 0 where
  bundled : Text → Bundle
  unbundled : Bundle

abbrev pub shell_name : Text
shell_name = units "shell.js"

abbrev pub index_name : Text
index_name = units "index.html"

-- What is left on the disk, and the path returned or the error thrown.
pub record Built : Type 0 where
  pub files : FileSystem
  pub outcome : Settled FilePath

-- The request that is rendered (line 26).
abbrev pub build_request : Request
build_request = record { method = units "GET"; url = units "http://localhost/" }

module _ (prerender : RouteArtifact → Request → Settled Text) (public_dir : FilePath) where
  -- Lines 26-28.
  pub write_index : FilePath → FileSystem → Built
  write_index out_dir files = elim (render_document prerender build_request) [
    | rejected m ↦ record { files = files; outcome = rejected m }
    | resolved html ↦ record {
      files = write_file (out_dir ++ index_name ∷ []) html files;
      outcome = resolved out_dir;
    }
  ]

  pub build_site : Bundle → FilePath → FileSystem → Built
  unfolding write_index
  build_site bundle out_dir files =
      let copied = copy_dir public_dir out_dir (remove_dir out_dir files) in
      elim bundle [
        | unbundled ↦ record { files = copied; outcome = rejected (units "shell bundle failed") }
        | bundled script ↦
            write_index out_dir (write_file (out_dir ++ shell_name ∷ []) script copied)
      ]
