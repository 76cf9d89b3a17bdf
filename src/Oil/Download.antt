-- ===== src/Oil/Download.antt =====
-- system/oil/src/util/security.rs, lines 5 and 21-60, and system/oil/src/main.rs, lines 755-811: which
-- addresses are fetched, and the installation of a package. The parser of addresses, the transfer, the
-- digest and the temporary file are parameters; the file gives back what was written to
-- it. An error is named by its cause, without the text that `install_package` puts before it.
pub mod Hosts
pub mod Verified
mod Tests
use alpenglow.Prelude.{
  ℕ, ◌+◌, ◌*◌, Text, Bool, true, false, not, Option, none, some, List, [], ◌∷◌, ◌++◌, ◌&&◌, ◌||◌,
  if◌then◌else◌, ltb, leb, map, any, reverse, length, text_eq, units, strip_prefix,
}
use alpenglow.Oil.Str.{str_trim}
use alpenglow.Oil.Package.{PackageMetadata}
use alpenglow.Oil.Dest.{DestError, Dest, accepted, refused, validate_install_dest, is_some}
use alpenglow.Oil.Apk.{Apk, Host, extract_tracked}

pub data InstallError : Type 0 where
  insecure_url invalid_url : Text → InstallError
  host_not_allowed : Text → InstallError
  download_failed no_temp_file read_failed temp_not_written : InstallError
  exceeds_limit : InstallError
  checksum_mismatch : Text → Text → InstallError
  bad_dest : DestError → InstallError

pub data Result {ℓ} (A : Type ℓ) : Type ℓ where
  ok : A → Result A
  err : InstallError → Result A

infixl 5 ◌>>=◌ ◌>>◌
abbrev pub ◌>>=◌ {ℓ κ} : {A : Type ℓ} {B : Type κ} → Result A → (A → Result B) → Result B
ok a >>= k = k a
err e >>= k = err e

abbrev pub ◌>>◌ {ℓ} : {B : Type ℓ} → Result (Unit {0}) → Result B → Result B
m >> k = m >>= λ _. k

abbrev pub guard : Bool → InstallError → Result (Unit {0})
guard true e = ok tt
guard false e = err e

-- What a read of the body gives; an empty read is its end.
pub data Read : Type 0 where
  got : List ℕ → Read
  broken : Read

pub record Network : Type 0 where
  -- The host of an address, if it has one; no address, if it does not parse.
  pub parse_host : Text → Option (Option Text)
  -- The address that the transfer ended at, and the reads of its body.
  pub fetch : Text → Option (Text × List Read)
  -- The digest in hexadecimal digits.
  pub sha256 : List ℕ → Text

pub record TempFile : Type 0 where
  pub created : Bool
  -- Whether the file takes a chunk after what it holds.
  pub takes : List ℕ → List ℕ → Bool
  pub flushes : Bool

-- MAX_DOWNLOAD_BYTES
abbrev pub max_download_bytes : ℕ
max_download_bytes = 512 * 1024 * 1024

abbrev pub allowed_hosts : List Text
allowed_hosts =
    units "dl-cdn.alpinelinux.org"
    ∷ units "github.com"
    ∷ units "objects.githubusercontent.com"
    ∷ units "raw.githubusercontent.com"
    ∷ []

abbrev pub allowed_suffixes : List Text
allowed_suffixes = units ".alpinelinux.org" ∷ units ".githubusercontent.com" ∷ []

abbrev pub ends_with : Text → Text → Bool
ends_with t suffix = is_some (strip_prefix (reverse suffix) (reverse t))

unfoldable pub is_allowed_host : Text → Bool
is_allowed_host host = any (text_eq host) allowed_hosts || any (ends_with host) allowed_suffixes

abbrev pub check_host : Text → Option (Option Text) → Result (Unit {0})
check_host url none = err (invalid_url url)
check_host url (some none) = err (invalid_url url)
check_host url (some (some host)) = guard (is_allowed_host host) (host_not_allowed host)

unfoldable pub validate_download_url : Network → Text → Result (Unit {0})
unfolding is_allowed_host
validate_download_url net url = do
  guard (is_some (strip_prefix (units "https://") url)) (insecure_url url)
  check_host url (net.parse_host url)

abbrev pub fetched : Option (Text × List Read) → Result (Text × List Read)
fetched none = err download_failed
fetched (some response) = ok response

unfoldable pub get_validated : Network → Text → Result (List Read)
unfolding validate_download_url
get_validated net url = do
  validate_download_url net url
  response ← fetched (net.fetch url)
  validate_download_url net response.0
  ok response.1

-- The loop of lines 773-791, after the bytes of `downloaded`.
unfoldable pub read_body : TempFile → List ℕ → List Read → Result (List ℕ)
read_body temp downloaded [] = ok downloaded
read_body temp downloaded (broken ∷ reads) = err read_failed
read_body temp downloaded (got [] ∷ reads) = ok downloaded
read_body temp downloaded (got (b ∷ chunk) ∷ reads) =
    let rest = read_body temp (downloaded ++ b ∷ chunk) reads in
    if ltb max_download_bytes (length downloaded + length (b ∷ chunk))
    then err exceeds_limit
    else guard (temp.takes downloaded (b ∷ chunk)) temp_not_written >> rest

abbrev pub ascii_lower : ℕ → ℕ
ascii_lower c = if leb b'A' c && leb c b'Z' then c + 32 else c

abbrev pub to_ascii_lowercase : Text → Text
to_ascii_lowercase t = map ascii_lower t

-- Lines 793-799.
unfoldable pub check_sum : Option Text → Text → Result (Unit {0})
check_sum none actual = ok tt
check_sum (some expected) actual =
    let wanted = to_ascii_lowercase (str_trim expected) in
    guard (text_eq actual wanted) (checksum_mismatch wanted actual)

-- Lines 757-802.
unfoldable pub download : Network → TempFile → PackageMetadata → Result (List ℕ)
unfolding get_validated read_body check_sum
download net temp pkg = do
  reads ← get_validated net pkg.download_url
  guard temp.created no_temp_file
  bytes ← read_body temp [] reads
  check_sum pkg.sha256 (net.sha256 bytes)
  guard temp.flushes temp_not_written
  ok bytes

abbrev pub download_and_extract : Network → TempFile → Host → PackageMetadata → Dest → Result Apk
download_and_extract net temp host pkg (refused e) = err (bad_dest e)
download_and_extract net temp host pkg (accepted dest) = download net temp pkg >>= λ bytes.
    ok (extract_tracked host dest (some (length bytes)) (some bytes))

unfoldable pub install_package : Network → TempFile → Host → PackageMetadata → Text → Result Apk
unfolding download
install_package net temp host pkg dest =
    download_and_extract net temp host pkg (validate_install_dest dest)
