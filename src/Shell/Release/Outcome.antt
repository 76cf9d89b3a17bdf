-- ===== src/Shell/Release/Outcome.antt =====
-- What `applyReleaseLink` makes of the link, for all answers of the two servers.
use alpenglow.Prelude.{
  ℕ, Text, IsText, true, ◌≡◌, ◌≢◌, refl, Option, none, some, [], ◌∷◌, ◌++◌, all, Option-cases, inl,
  inr, ◌⊎◌,
}
use mathlib.Core.Option
use mathlib.Core.Option.{map-eq-some_iff}
use alpenglow.Uri.{encode_uri_component}
use alpenglow.Uri.Safe.{is_component_unit, encode_uri_component-safe}
use alpenglow.Uri.WellFormed.{WellFormed, encode_uri_component-ne-none_iff}
use alpenglow.Uri.Decode.{decode_uri_component, decode-encode}
use alpenglow.Shell.State.{Shell, Link, finished, fetching_release, fetched}
use alpenglow.Shell.BuildId.{Reply}
use alpenglow.Shell.Release.{
  tag_prefix, latest_url, ReleaseReply, no_release, release, baked_version, link_to_version,
  link_to_release, version_arrived, after_version,
}

-- The link names a version and leads to its page, whose address has the version as its last
-- segment: it can be read back, and no character of it ends the segment.
pub record LeadsTo (version : Text) (link : Link) : Type 0 where
  pub segment : Text
  pub labelled : link.label ≡ version
  pub address : link.href ≡ tag_prefix ++ segment
  pub closed : all is_component_unit segment ≡ true
  pub readable : decode_uri_component segment ≡ version

-- A version of UTF-16 code units whose surrogates stand in pairs is the label of the link, and the
-- last segment of its address: no character of the segment ends it, and it decodes to the version.
pub link_to_version-LeadsTo :
    (version : Text) (link : Link)
    → IsText version
    → WellFormed version
    → LeadsTo version (link_to_version version link)
unfolding link_to_version
link_to_version-LeadsTo version link h w = elim (Option-cases (encode_uri_component version)) [
  | inl thrown ↦ absurd ((encode_uri_component-ne-none_iff version).1 w thrown)
  | inr (v, e) ↦
      rw (e, link_to_version)
        (record {
          segment = v;
          labelled = refl;
          address = refl;
          closed = encode_uri_component-safe version h e;
          readable = decode-encode version h e;
        })
]

module _ {W : Type 0} (s : Shell W) where
  -- One of three: the version file holds a version, the link gets it and GitHub is not asked; or the
  -- file cannot be had or is blank, GitHub is asked next and the link is as it was; or its body breaks
  -- off, and neither happens.
  pub version_arrived_lem :
      (reply : Reply)
      → ((version : Text) × (version ≢ [])
          × (baked_version reply ≡ some version)
          × (version_arrived reply s ≡ record s {
            release = finished;
            page = record (s.page) {
              release_link = Option.map (link_to_version version) s.page.release_link;
            };
          }))
        ⊎ ((baked_version reply ≡ some [])
            × (version_arrived reply s
                ≡ record s { release = fetching_release; log = fetched latest_url ∷ s.log }))
        ⊎ ((baked_version reply ≡ none)
            × (version_arrived reply s ≡ record s { release = finished }))
  unfolding version_arrived after_version
  version_arrived_lem reply = elim (baked-cases (baked_version reply)) [
    | inl (c, t, e) ↦ inl (c ∷ t, ∷-ne-[], e, rw e refl)
    | inr (inl e) ↦ inr (inl (e, rw e refl))
    | inr (inr e) ↦ inr (inr (e, rw e refl))
  ]
    where
      ∷-ne-[] : {c : ℕ} {t : Text} → (c ∷ t) ≢ []
      ∷-ne-[] h = cc

      baked-cases :
          (o : Option Text)
          → ((c : ℕ) × (t : Text) × (o ≡ some (c ∷ t))) ⊎ (o ≡ some []) ⊎ (o ≡ none)
      baked-cases none = inr (inr refl)
      baked-cases (some []) = inr (inl refl)
      baked-cases (some (c ∷ t)) = inl (c, t, refl)

-- The answer of GitHub either leaves the link alone or gives it both the label and the address,
-- and only if it has both as strings.
pub link_to_release_lem :
    (reply : ReleaseReply) (link : Link)
    → (link_to_release reply link ≡ link)
      ⊎ ((tag : Text) × (url : Text) × (reply ≡ release (some tag) (some url))
          × (link_to_release reply link ≡ record { label = tag; href = url }))
unfolding link_to_release
link_to_release_lem (release (some tag) (some url)) link = inr (tag, url, refl, refl)
link_to_release_lem (release none url) link = inl refl
link_to_release_lem (release (some tag) none) link = inl refl
link_to_release_lem no_release link = inl refl
