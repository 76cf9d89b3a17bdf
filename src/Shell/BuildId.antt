-- ===== src/Shell/BuildId.antt =====
-- `buildId`, `buildIdPromise` and `asset` (lines 41-53).
pub mod Assets
use alpenglow.Prelude.{Text, units, true, Option, none, some, [], ◌∷◌, ◌++◌, trim, or_text}
use mathlib.Core.Option
use alpenglow.Uri.{encode_uri_component}
use alpenglow.Shell.State.{Shell}

-- What a fetch gives: it rejects, the status is not ok, the body cannot be read, or a text.
pub data Reply : Type 0 where
  unreachable refused broken : Reply
  body : Text → Reply

unfoldable pub initial_build_id : Text
initial_build_id = units "dev"

-- The handler of line 43. Rejections are ignored.
unfoldable pub read_build_id : Reply → Text → Text
read_build_id (body t) build_id = or_text (trim t) build_id
read_build_id unreachable build_id = build_id
read_build_id refused build_id = build_id
read_build_id broken build_id = build_id

unfoldable pub settle_build_id : {W : Type 0} → Reply → Shell W → Shell W
settle_build_id reply s = record s {
  build_id = read_build_id reply s.build_id;
  build_id_settled = true;
}

-- `none` is the URIError of `encodeURIComponent`.
unfoldable pub asset : Text → Text → Option Text
asset build_id path = Option.map (λ v. path ++ (units "?v=" ++ v)) (encode_uri_component build_id)

unfoldable pub libv86_url : Text
libv86_url = units "/v86/libv86.mjs"
