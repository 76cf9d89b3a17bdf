-- ===== src/Oil/Download/Hosts.antt =====
-- Which hosts a download may come from.
use alpenglow.Prelude.{
  Text, true, false, ◌≡◌, refl, sym, ap, ◌∙◌, inl, inr, Option, none, some, [], ◌∷◌, ◌++◌, ◌||◌,
  any, reverse, reverse-append, reverse-reverse, strip_prefix, text_eq, units, Bool-cases,
  Option-cases, arith, Bool,
}
use alpenglow.Oil.Dest.{is_some}
use alpenglow.Oil.Download.{
  Network, Result, ok, guard, ◌>>◌, ends_with, allowed_hosts, is_allowed_host, InstallError,
  check_host, validate_download_url,
}

pub strip_prefix-rest : (p t r : Text) → strip_prefix p t ≡ some r → t ≡ p ++ r
strip_prefix-rest [] t r h = ground arith
strip_prefix-rest (c ∷ p) [] r h = cc
strip_prefix-rest (c ∷ p) (d ∷ t) r h = ground (arith, strip_prefix-rest p t r)

is_some-strip_prefix : (p t : Text) → is_some (strip_prefix p t) ≡ true → (r : Text) × (t ≡ p ++ r)
is_some-strip_prefix p t h = elim (Option-cases (strip_prefix p t)) [
  | inl missing ↦ cc (rw missing at h)
  | inr (r, found) ↦ (r, strip_prefix-rest p t r found)
]

ends_with-front :
    (t suffix : Text) → ends_with t suffix ≡ true → (front : Text) × (t ≡ front ++ suffix)
ends_with-front t suffix h =
    let (r, e) = is_some-strip_prefix (reverse suffix) (reverse t) h in
    (
      reverse r,
      sym (reverse-reverse t)
          ∙ ap reverse e
          ∙ reverse-append (reverse suffix) r
          ∙ ap (λ s. reverse r ++ s) (reverse-reverse suffix),
    )

-- One of four hosts, or a host below one of two domains.
pub data IsAllowedHost (host : Text) : Type 0 where
  listed : any (text_eq host) allowed_hosts ≡ true → IsAllowedHost host
  alpine : (sub : Text) → host ≡ sub ++ units ".alpinelinux.org" → IsAllowedHost host
  github : (sub : Text) → host ≡ sub ++ units ".githubusercontent.com" → IsAllowedHost host

third_of : (x y z : Bool) → (x || (y || (z || false))) ≡ true → x ≡ false → y ≡ false → z ≡ true
third_of x y z h hx hy = ground arith

is_allowed_host-IsAllowedHost : (host : Text) → is_allowed_host host ≡ true → IsAllowedHost host
unfolding is_allowed_host
is_allowed_host-IsAllowedHost host h = elim (Bool-cases (any (text_eq host) allowed_hosts)) [
  | inl found ↦ listed found
  | inr other ↦ elim (Bool-cases (ends_with host (units ".alpinelinux.org"))) [
    | inl below ↦
        let (sub, e) = ends_with-front host (units ".alpinelinux.org") below in alpine sub e
    | inr elsewhere ↦
        let below : ends_with host (units ".githubusercontent.com") ≡ true =
          third_of (any (text_eq host) allowed_hosts) _ _ h other elsewhere in
        let (sub, e) = ends_with-front host (units ".githubusercontent.com") below in github sub e
  ]
]

-- An address that may be fetched: encrypted, and of such a host.
pub record IsAllowedUrl (net : Network) (url : Text) : Type 0 where
  pub host : Text
  pub rest : Text
  pub encrypted : url ≡ units "https://" ++ rest
  pub parsed : net.parse_host url ≡ some (some host)
  pub host_allowed : IsAllowedHost host

pub guard-then {ℓ} :
    {B : Type ℓ} (b : Bool) (e : InstallError) (k : Result B) {r : B}
    → (guard b e >> k) ≡ ok r
    → (b ≡ true) × (k ≡ ok r)
guard-then true e k h = (refl, h)
guard-then false e k h = cc

pub guard-ok : (b : Bool) (e : InstallError) {u : Unit {0}} → guard b e ≡ ok u → b ≡ true
guard-ok true e h = refl
guard-ok false e h = cc

check_host-parsed :
    (url : Text) (parsed : Option (Option Text)) (u : Unit {0})
    → check_host url parsed ≡ ok u
    → (host : Text) × (parsed ≡ some (some host)) × IsAllowedHost host
check_host-parsed url none u h = cc
check_host-parsed url (some none) u h = cc
check_host-parsed url (some (some host)) u h =
    (host, refl, is_allowed_host-IsAllowedHost host (guard-ok _ _ h))

pub validate_download_url-IsAllowedUrl :
    (net : Network) (url : Text) (u : Unit {0})
    → validate_download_url net url ≡ ok u
    → IsAllowedUrl net url
unfolding validate_download_url
validate_download_url-IsAllowedUrl net url u h =
    let (secure, h1) = guard-then (is_some (strip_prefix (units "https://") url)) _ _ h in
    let (rest, encrypted) = is_some-strip_prefix (units "https://") url secure in
    let (host, parsed, allowed) = check_host-parsed url (net.parse_host url) u h1 in
    record {
      host = host;
      rest = rest;
      encrypted = encrypted;
      parsed = parsed;
      host_allowed = allowed;
    }
