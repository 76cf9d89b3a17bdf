-- ===== src/Oil/Download/Tests.antt =====
-- The download of a package in two reads.
use alpenglow.Prelude.{
  Text, true, false, ◌≡◌, refl, ap, ◌∙◌, Option, none, some, [], ◌∷◌, length, text_eq, units,
  if◌then◌else◌,
}
use alpenglow.Oil.Str.{str_trim}
use alpenglow.Oil.Package.{PackageMetadata}
use alpenglow.Oil.Extract.{extract_payload}
use alpenglow.Oil.Dest.{validate_install_dest, accepted, normalize}
use alpenglow.Oil.Apk.{extracted, extract_tracked}
use alpenglow.Oil.Apk.Samples.{apk, host, payload, works, extracts}
use alpenglow.Oil.FilePath.{components, components_of, component_of, segments, join}
use alpenglow.Oil.Download.{
  Network, TempFile, got, ok, err, checksum_mismatch, ◌>>=◌, is_allowed_host, download,
  download_and_extract, install_package,
}
use alpenglow.Oil.Download.Verified.{IsVerified, install_package-IsVerified}

abbrev url : Text
url = units "https://dl-cdn.alpinelinux.org/x.apk"

abbrev mirror : Text
mirror = units "https://eu.alpinelinux.org/x.apk"

abbrev host_of : Text → Option (Option Text)
host_of address =
    if text_eq address url
    then some (some (units "dl-cdn.alpinelinux.org"))
    else if text_eq address mirror
    then some (some (units "eu.alpinelinux.org"))
    else none

abbrev net : Network
net = record {
  parse_host = host_of;
  fetch = λ address.
      some (mirror, got (0x1f ∷ 0x8b ∷ 1 ∷ []) ∷ got (0x1f ∷ 0x8b ∷ 2 ∷ 0x1f ∷ 0x8b ∷ 3 ∷ []) ∷ []);
  sha256 = λ bytes. units "ab12";
}

abbrev temp : TempFile
temp = record { created = true; takes = λ done chunk. true; flushes = true }

abbrev tool : PackageMetadata
tool = record {
  name = units "tool";
  version = units "1";
  description = [];
  download_url = url;
  sha256 = some (units " AB12\n");
  installed_size = 0;
  depends = [];
  provides = [];
}

abbrev opt : Text
opt = units "/opt"

downloads : download net temp tool ≡ ok apk
unfolding download str_trim
downloads = refl

refuses_sum :
    download (record net { sha256 = λ bytes. units "ab13" }) temp tool
    ≡ err (checksum_mismatch (units "ab12") (units "ab13"))
unfolding download str_trim
refuses_sum = refl

-- A host that only ends in the name of an allowed one.
refuses_host : is_allowed_host (units "evilgithub.com") ≡ false
unfolding is_allowed_host
refuses_host = refl

accepts_opt : validate_install_dest opt ≡ accepted opt
unfolding validate_install_dest normalize components components_of component_of segments join
accepts_opt = refl

installs :
    install_package net temp host tool opt
    ≡ ok (extracted (extract_payload works opt (payload (3 ∷ []))))
unfolding install_package
installs =
    ap (download_and_extract net temp host tool) accepts_opt
    ∙ ap (λ r. r >>= λ bytes. ok (extract_tracked host opt (some (length bytes)) (some bytes)))
        downloads
    ∙ ap ok (extracts opt)

install_package-IsVerified_example :
    IsVerified net host tool opt (extract_payload works opt (payload (3 ∷ [])))
install_package-IsVerified_example =
    install_package-IsVerified net temp host tool opt (extract_payload works opt (payload (3 ∷ [])))
      installs
