-- ===== src/Shell/BuildId/Assets.antt =====
-- The addresses of the emulator's files.
use alpenglow.Prelude.{
  Text, IsText, units, true, ◌≡◌, ◌≢◌, sym, some, [], ◌∷◌, ◌++◌, all, trim, or_text,
}
use mathlib.Core.Option.{map-eq-some_iff}
use alpenglow.Uri.{encode_uri_component}
use alpenglow.Uri.Safe.{is_component_unit, encode_uri_component-safe}
use alpenglow.Uri.Decode.{decode_uri_component, decode-encode}
use alpenglow.Shell.BuildId.{
  Reply, unreachable, refused, broken, body, initial_build_id, read_build_id, asset,
}

-- The address is the path with the build id as its only parameter, which reads back as the id.
pub record IsAsset (build_id path url : Text) : Type 0 where
  pub version : Text
  pub address : url ≡ path ++ (units "?v=" ++ version)
  pub closed : all is_component_unit version ≡ true
  pub readable : decode_uri_component version ≡ build_id

pub asset-IsAsset :
    (build_id path : Text) {url : Text}
    → IsText build_id
    → asset build_id path ≡ some url
    → IsAsset build_id path url
unfolding asset
asset-IsAsset build_id path h e =
    let (v, found, same) = (map-eq-some_iff _ (encode_uri_component build_id)).0 e in
    record {
      version = v;
      address = sym same;
      closed = encode_uri_component-safe build_id h found;
      readable = decode-encode build_id h found;
    }

-- The build id is never empty: it is "dev" until a text that is not blank arrives.
pub read_build_id-ne-nil : (reply : Reply) (id : Text) → id ≢ [] → read_build_id reply id ≢ []
unfolding read_build_id
read_build_id-ne-nil (body t) id h = go (trim t)
  where
    go : (t : Text) → or_text t id ≢ []
    go [] = h
    go (c ∷ t) = λ e. cc
read_build_id-ne-nil unreachable id h = h
read_build_id-ne-nil refused id h = h
read_build_id-ne-nil broken id h = h

pub initial_build_id-ne-nil : initial_build_id ≢ []
unfolding initial_build_id
initial_build_id-ne-nil = λ e. cc
