-- ===== src/Oil/Command/Prefix.antt =====
-- What becomes of an installation below a prefix.
use alpenglow.Prelude.{
  Text, true, false, none, any, all, all-append, ◌≡◌, ◌≢◌, refl, sym, ap, ◌∙◌, Option, some, [],
  ◌∷◌, ◌++◌, text_eq, units,
}
use alpenglow.Oil.Package.{PackageMetadata}
use alpenglow.Oil.FilePath.{
  Component, root_dir, normal, Components, components, components_of, component_of, segments,
  starts_with,
}
use alpenglow.Oil.FilePath.{cur_dir, parent_dir, join}
use alpenglow.Oil.FilePath.Parts.{components-join}
use alpenglow.Oil.Extract.Walk.{is_normal}
use alpenglow.Oil.Command.Operations.{prefix_or}
use alpenglow.Oil.Dest.{
  Dest, DestError, accepted, refused, normalize, is_parent_dir, refuse_parents,
  validate_install_dest, resolve_install_dest,
}
use alpenglow.Oil.Dest.Allowed.{is_allowed, validate_install_dest-IsAllowed}
use alpenglow.Oil.Apk.{Host}
use alpenglow.Oil.Download.{Network, TempFile, err, bad_dest, download_and_extract, install_package}
use alpenglow.Oil.Command.{install_dest}

-- A path below a directory of the root other than /usr and /opt.
is_allowed-elsewhere :
    (first : Text) (names : Components)
    → text_eq first (units "usr") ≡ false
    → text_eq first (units "opt") ≡ false
    → is_allowed (root_dir ∷ normal first ∷ names) ≡ false
unfolding starts_with components components_of component_of segments
is_allowed-elsewhere first names usr opt = rw (usr, opt) refl

components-nil : components [] ≡ []
unfolding components
components-nil = refl

nil-ne-cons : {c : Component} {path : Components} → [] ≢ c ∷ path
nil-ne-cons h = cc

any-parent : (cs : Components) → all is_normal cs ≡ true → any is_parent_dir cs ≡ false
any-parent [] h = refl
any-parent (normal name ∷ cs) h = any-parent cs h
any-parent (root_dir ∷ cs) h = cc
any-parent (cur_dir ∷ cs) h = cc
any-parent (parent_dir ∷ cs) h = cc

module _ (net : Network) (temp : TempFile) (host : Host) (pkg : PackageMetadata) where
  refuses :
      (path : Text) (first : Text) (names : Components) (dest : Dest)
      → components path ≡ root_dir ∷ normal first ∷ names
      → text_eq first (units "usr") ≡ false
      → text_eq first (units "opt") ≡ false
      → validate_install_dest path ≡ dest
      → (e : DestError) × (download_and_extract net temp host pkg dest ≡ err (bad_dest e))
  refuses path first names (refused e) hp usr opt h = (e, refl)
  refuses path first names (accepted given) hp usr opt h =
      let (rest, of_path, of_given, _, within) = validate_install_dest-IsAllowed path given h in
      let outside =
        ap is_allowed (of_given ∙ sym of_path ∙ hp) ∙ is_allowed-elsewhere first names usr opt in
      absurd (cc (sym within ∙ outside))

-- Where a package goes below a prefix.
abbrev pub placed : Text → Text
placed prefix = join prefix (units "usr/local")

module _ (system_prefix : Option Text) (prefix first : Text) (names : Components)
    (parts : components prefix ≡ root_dir ∷ normal first ∷ names)
    (normal_names : all is_normal names ≡ true) where
  prefix_filled : prefix ≢ []
  prefix_filled empty = nil-ne-cons (sym components-nil ∙ ap components (sym empty) ∙ parts)

  components-placed :
      components (placed prefix)
      ≡ root_dir ∷ normal first ∷ (names ++ normal (units "usr") ∷ normal (units "local") ∷ [])
  unfolding segments components_of component_of
  components-placed =
      components-join prefix (units "usr/local") prefix_filled refl
      ∙ ap (λ cs. cs ++ normal (units "usr") ∷ normal (units "local") ∷ []) parts

  no_parents : any is_parent_dir (components (placed prefix)) ≡ false
  no_parents =
      ap (any is_parent_dir) components-placed
      ∙ any-parent (names ++ normal (units "usr") ∷ normal (units "local") ∷ []) (
          all-append is_normal names (normal (units "usr") ∷ normal (units "local") ∷ [])
          ∙ rw normal_names refl)

  kept : refuse_parents (placed prefix) ≡ accepted (placed prefix)
  kept = rw no_parents refl

  install_dest-prefix : install_dest system_prefix (some prefix) ≡ accepted (placed prefix)
  unfolding install_dest resolve_install_dest validate_install_dest normalize components
      components_of component_of segments join
  install_dest-prefix = kept

  install_dest-system_prefix : install_dest (some prefix) none ≡ accepted (placed prefix)
  unfolding install_dest resolve_install_dest validate_install_dest normalize components
      components_of component_of segments join
  install_dest-system_prefix = kept

  install_dest-chosen :
      (cli : Option Text)
      → prefix_or cli system_prefix ≡ some prefix
      → install_dest system_prefix cli ≡ accepted (placed prefix)
  install_dest-chosen none h =
      ap (λ chosen. install_dest chosen none) h ∙ install_dest-system_prefix
  install_dest-chosen (some given) h = ap (install_dest system_prefix) h ∙ install_dest-prefix

-- Of a prefix that is absolute, has no `..`, and is a directory of the root other than /usr and /opt or
-- lies in one, whether it is given to the command or stands in OIL_SYSTEM_PREFIX and none is given: the
-- directory to install to is accepted, and is usr/local below the prefix; but `install_package` refuses
-- every package for this directory.
pub install_package-refuses-prefix :
    (net : Network) (temp : TempFile) (host : Host) (pkg : PackageMetadata)
    (system_prefix cli : Option Text) (prefix first : Text) (names : Components)
    → prefix_or cli system_prefix ≡ some prefix
    → components prefix ≡ root_dir ∷ normal first ∷ names
    → all is_normal names ≡ true
    → text_eq first (units "usr") ≡ false
    → text_eq first (units "opt") ≡ false
    → (path : Text) × (install_dest system_prefix cli ≡ accepted path)
      × (components path
          ≡ root_dir ∷ normal first ∷ (names ++ normal (units "usr") ∷ normal (units "local") ∷ []))
      × ((e : DestError) × (install_package net temp host pkg path ≡ err (bad_dest e)))
unfolding install_package
install_package-refuses-prefix net temp host pkg system_prefix cli prefix first names chosen parts h
      usr opt =
    let path = placed prefix in
    let is_placed = components-placed system_prefix prefix first names parts h in
    (
      path,
      install_dest-chosen system_prefix prefix first names parts h cli chosen,
      is_placed,
      refuses net temp host pkg path first _ (validate_install_dest path) is_placed usr opt refl,
    )
