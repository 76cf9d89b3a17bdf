-- ===== src/Shell/Release.antt =====
-- `applyReleaseLink` (lines 12-37), in the parts between its two fetches.
pub mod Outcome
use alpenglow.Prelude.{Text, units, Option, none, some, [], ◌∷◌, ◌++◌, trim}
use mathlib.Core.Option
use alpenglow.Uri.{encode_uri_component}
use alpenglow.Shell.State.{Shell, Page, Link, ReleaseTask, fetching_version, fetching_release}
use alpenglow.Shell.State.{finished, fetched, emit, with_page}
use alpenglow.Shell.BuildId.{Reply, unreachable, refused, broken, body}

version_url : Text
version_url = units "/version.txt"

unfoldable pub latest_url : Text
latest_url = units "https://api.github.com/repos/tschk/alpenglow/releases/latest"

unfoldable pub tag_prefix : Text
tag_prefix = units "https://github.com/tschk/alpenglow/releases/tag/"

-- The fields of the answer of GitHub that are strings, or no answer that can be read.
pub data ReleaseReply : Type 0 where
  no_release : ReleaseReply
  release : Option Text → Option Text → ReleaseReply

-- `bakedVersion`; a body that cannot be read ends the function (`none`).
pub baked_version : Reply → Option Text
baked_version unreachable = some []
baked_version refused = some []
baked_version broken = none
baked_version (body t) = some (trim t)

-- Lines 21-22: the label is set before the address, whose encoding may throw.
pub link_to_version : Text → Link → Link
link_to_version version link = elim (encode_uri_component version) [
  | none ↦ record link { label = version }
  | some v ↦ record { label = version; href = tag_prefix ++ v }
]

-- Lines 30-36.
pub link_to_release : ReleaseReply → Link → Link
link_to_release (release (some tag) (some url)) link = record { label = tag; href = url }
link_to_release (release none url) link = link
link_to_release (release (some tag) none) link = link
link_to_release no_release link = link

module _ {W : Type 0} where
  abbrev with_link : (Link → Link) → Shell W → Shell W
  with_link f s = record s {
    page = record (s.page) { release_link = Option.map f s.page.release_link };
  }

  -- The call of line 39, up to its first `await`.
  unfoldable pub start_release : Shell W → Shell W
  unfolding version_url
  start_release s = elim s.page.release_link [
    | none ↦ record s { release = finished }
    | some _ ↦ emit (fetched version_url) (record s { release = fetching_version })
  ]

  after_version : Option Text → Shell W → Shell W
  after_version none s = record s { release = finished }
  after_version (some []) s = emit (fetched latest_url) (record s { release = fetching_release })
  after_version (some (c ∷ t)) s =
      with_link (link_to_version (c ∷ t)) (record s { release = finished })

  unfoldable pub version_arrived : Reply → Shell W → Shell W
  unfolding after_version baked_version link_to_version
  version_arrived reply s = after_version (baked_version reply) s

  unfoldable pub release_arrived : ReleaseReply → Shell W → Shell W
  unfolding link_to_release
  release_arrived reply s = with_link (link_to_release reply) (record s { release = finished })
