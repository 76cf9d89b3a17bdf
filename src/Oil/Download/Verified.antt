-- ===== src/Oil/Download/Verified.antt =====
-- What an installed package has passed.
use mathlib.Core.Path.{subst}
use alpenglow.Prelude.{
  ℕ, ◌+◌, ◌≤◌, ltb, Text, true, false, ◌≡◌, ◌≢◌, refl, sym, ap, ◌∙◌, Option, none, some, List, [],
  ◌∷◌, ◌++◌, length, text_eq, text_eq_iff, append-nil, append_assoc, Bool-cases, inl, inr, arith,
}
use alpenglow.Oil.Str.{str_trim}
use alpenglow.Oil.FilePath.{components}
use alpenglow.Oil.Package.{PackageMetadata}
use alpenglow.Oil.Extract.{Extracted}
use alpenglow.Oil.Dest.{Dest, accepted, refused, validate_install_dest}
use alpenglow.Oil.Dest.Allowed.{is_allowed, validate_install_dest-IsAllowed}
use alpenglow.Oil.Apk.{extracted, Host}
use alpenglow.Oil.Apk.Trust.{ExtractsTrusted, extract_tracked-IsTrusted}
use alpenglow.Oil.Download.{
  Network, TempFile, Read, got, broken, Result, ok, err, exceeds_limit, ◌>>=◌, fetched,
  max_download_bytes, validate_download_url, get_validated, read_body, to_ascii_lowercase,
  check_sum, download, download_and_extract, install_package,
}
use alpenglow.Oil.Download.Hosts.{
  IsAllowedUrl, validate_download_url-IsAllowedUrl, guard-then, guard-ok,
}

-- The bytes of a body up to its end.
abbrev pub body_of : List Read → List ℕ
body_of [] = []
body_of (broken ∷ reads) = []
body_of (got [] ∷ reads) = []
body_of (got (b ∷ chunk) ∷ reads) = b ∷ chunk ++ body_of reads

length-append : (xs ys : List ℕ) → length (xs ++ ys) ≡ length xs + length ys
length-append [] ys = omega arith
length-append (x ∷ xs) ys = omega (arith, length-append xs ys)

ltb-false : (c n : ℕ) → ltb c n ≡ false → n ≤ c
ltb-false c n h = ground arith

ok-injective {ℓ} : {A : Type ℓ} {a b : A} → ok a ≡ ok b → a ≡ b
ok-injective h = cc

exceeds-ne-ok : {bytes : List ℕ} → err exceeds_limit ≢ ok bytes
exceeds-ne-ok h = cc

ended :
    (done bytes : List ℕ)
    → length done ≤ max_download_bytes
    → done ≡ bytes
    → (bytes ≡ done ++ []) × (length bytes ≤ max_download_bytes)
ended done bytes within same =
    (sym same ∙ sym (append-nil done), omega (arith, within, ap length same))

read_body-whole :
    (temp : TempFile) (done : List ℕ) (reads : List Read) (bytes : List ℕ)
    → length done ≤ max_download_bytes
    → read_body temp done reads ≡ ok bytes
    → (bytes ≡ done ++ body_of reads) × (length bytes ≤ max_download_bytes)
unfolding read_body
read_body-whole temp done [] bytes within h = ended done bytes within (ok-injective h)
read_body-whole temp done (broken ∷ reads) bytes within h = cc
read_body-whole temp done (got [] ∷ reads) bytes within h = ended done bytes within (ok-injective h)
read_body-whole temp done (got (b ∷ chunk) ∷ reads) bytes within h =
    elim (Bool-cases (ltb max_download_bytes (length done + length (b ∷ chunk)))) [
      | inl long ↦ absurd (exceeds-ne-ok (rw (read_body, long) at h))
      | inr fits ↦
          let (taken, h1) =
            guard-then (temp.takes done (b ∷ chunk)) _ _ (rw (read_body, fits) at h) in
          let within' : length (done ++ b ∷ chunk) ≤ max_download_bytes = omega (
            arith,
            length-append done (b ∷ chunk),
            ltb-false max_download_bytes (length done + length (b ∷ chunk)) fits,
          ) in
          let (whole, bound) = read_body-whole temp (done ++ b ∷ chunk) reads bytes within' h1 in
          (whole ∙ append_assoc done (b ∷ chunk) (body_of reads), bound)
    ]

>>=-eq-ok {ℓ κ} :
    {A : Type ℓ} {B : Type κ} (r : Result A) (k : A → Result B) {b : B}
    → (r >>= k) ≡ ok b
    → (a : A) × (r ≡ ok a) × (k a ≡ ok b)
>>=-eq-ok (ok a) k h = (a, refl, h)
>>=-eq-ok (err e) k h = cc

-- The digest that is wanted, if one is.
abbrev pub HasSum : Option Text → Text → Type 0
HasSum none actual = Unit
HasSum (some expected) actual = actual ≡ to_ascii_lowercase (str_trim expected)

check_sum-HasSum :
    (expected : Option Text) (actual : Text) (u : Unit {0})
    → check_sum expected actual ≡ ok u
    → HasSum expected actual
unfolding check_sum
check_sum-HasSum none actual u h = tt
check_sum-HasSum (some expected) actual u h =
    let wanted = to_ascii_lowercase (str_trim expected) in
    (text_eq_iff actual wanted).0 (guard-ok (text_eq actual wanted) _ h)

-- The bytes came from an allowed address, and from one after all redirections; they are the whole
-- body, within the limit, and have the digest of the package.
pub record IsDownloaded (net : Network) (pkg : PackageMetadata) (bytes : List ℕ) : Type 0 where
  pub address : IsAllowedUrl net pkg.download_url
  pub final_url : Text
  pub reads : List Read
  pub answered : net.fetch pkg.download_url ≡ some (final_url, reads)
  pub final : IsAllowedUrl net final_url
  pub whole : bytes ≡ body_of reads
  pub within : length bytes ≤ 536870912
  pub checked : HasSum pkg.sha256 (net.sha256 bytes)

fetched-some :
    (r : Option (Text × List Read)) (response : Text × List Read)
    → fetched r ≡ ok response
    → r ≡ some response
fetched-some none response h = cc
fetched-some (some r) response h = ap some (ok-injective h)

download-IsDownloaded :
    (net : Network) (temp : TempFile) (pkg : PackageMetadata) (bytes : List ℕ)
    → download net temp pkg ≡ ok bytes
    → IsDownloaded net pkg bytes
unfolding download get_validated
download-IsDownloaded net temp pkg bytes h =
    let (reads, hg, h1) = >>=-eq-ok (get_validated net pkg.download_url) _ h in
    let (u, hu, g1) = >>=-eq-ok (validate_download_url net pkg.download_url) _ hg in
    let (response, hr, g2) = >>=-eq-ok (fetched (net.fetch pkg.download_url)) _ g1 in
    let (v, hv, g3) = >>=-eq-ok (validate_download_url net response.0) _ g2 in
    let (created, h2) = guard-then temp.created _ _ h1 in
    let (body, hb, h3) = >>=-eq-ok (read_body temp [] reads) _ h2 in
    let (w, hc, h4) = >>=-eq-ok (check_sum pkg.sha256 (net.sha256 body)) _ h3 in
    let (flushed, h5) = guard-then temp.flushes _ _ h4 in
    let (whole, within) = read_body-whole temp [] reads body (omega arith) hb in
    let same = ok-injective h5 in
    subst (IsDownloaded net pkg) same (record {
      address = validate_download_url-IsAllowedUrl net pkg.download_url u hu;
      final_url = response.0;
      reads = reads;
      answered = fetched-some _ response hr ∙ ap (λ r. some (response.0, r)) (ok-injective g3);
      final = validate_download_url-IsAllowedUrl net response.0 v hv;
      whole = whole;
      within = within;
      checked = check_sum-HasSum pkg.sha256 (net.sha256 body) w hc;
    })

-- What is extracted lies in a directory where packages may be installed, was downloaded with all
-- checks, and is trusted.
pub record IsVerified (net : Network) (host : Host) (pkg : PackageMetadata) (dest : Text)
    (r : Extracted) : Type 0 where
  pub path : Text
  pub accepted_dest : validate_install_dest dest ≡ accepted path
  pub allowed_dest : is_allowed (components path) ≡ true
  pub bytes : List ℕ
  pub downloaded : IsDownloaded net pkg bytes
  pub trusted : ExtractsTrusted host path (some bytes) r

extracted-IsVerified :
    (net : Network) (temp : TempFile) (host : Host) (pkg : PackageMetadata) (dest : Text)
    (r : Extracted) (checked : Dest)
    → validate_install_dest dest ≡ checked
    → download_and_extract net temp host pkg checked ≡ ok (extracted r)
    → IsVerified net host pkg dest r
extracted-IsVerified net temp host pkg dest r (refused e) hd h = cc
extracted-IsVerified net temp host pkg dest r (accepted path) hd h =
    let (bytes, hb, h1) = >>=-eq-ok (download net temp pkg) _ h in
    let (names, _, _, _, within) = validate_install_dest-IsAllowed dest path hd in
    record {
      path = path;
      accepted_dest = hd;
      allowed_dest = within;
      bytes = bytes;
      downloaded = download-IsDownloaded net temp pkg bytes hb;
      trusted =
          extract_tracked-IsTrusted host path (some (length bytes)) (some bytes) r
            (ok-injective h1);
    }

-- A package comes to be extracted only into an allowed directory, and only if its address and the one
-- that the transfer ended at are encrypted and of allowed hosts, its bytes are the whole body, of at
-- most 512 MiB, and have the digest that the package names, if it names one, and the signature was
-- checked as for any package.
pub install_package-IsVerified :
    (net : Network) (temp : TempFile) (host : Host) (pkg : PackageMetadata) (dest : Text)
    (r : Extracted)
    → install_package net temp host pkg dest ≡ ok (extracted r)
    → IsVerified net host pkg dest r
unfolding install_package
install_package-IsVerified net temp host pkg dest r h =
    extracted-IsVerified net temp host pkg dest r (validate_install_dest dest) refl h
