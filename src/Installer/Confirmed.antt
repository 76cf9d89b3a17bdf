-- ===== src/Installer/Confirmed.antt =====
-- What is asked before a disk is written that was selected.
use alpenglow.Prelude.{
  Text, true, false, not, ◌≡◌, ap, Option, none, some, List, All, text_eq_iff, [], ◌∷◌, arith,
}
use alpenglow.Oil.FilePath.{components}
use alpenglow.Oil.Index.{file_name}
use alpenglow.Installer.{Call, refuse_if}
use alpenglow.Installer.Disk.{DiskIdentity}
use alpenglow.Installer.Image.{Answers}
use alpenglow.Installer.Command.{equals_some, is_compressed, install_image_to_disk}
use alpenglow.Installer.Runs.{then_run-All, refuse_if-eq-ok}
use alpenglow.Installer.Safety.{Permitted, install_image_inner-Permitted}

equals_some-same : (o : Option Text) (t : Text) → equals_some o t ≡ true → o ≡ some t
equals_some-same none t h = cc
equals_some-same (some s) t h = ap some ((text_eq_iff s t).0 h)

module _ (P : Call → Type 0) {Q : Type 0} (q : Q) where
  All-both : (calls : List Call) → All P calls → All (λ call. Q × P call) calls
  All-both [] h = tt
  All-both (call ∷ calls) (p, h) = ((q, p), All-both calls h)

-- Nothing is called on the disk that was selected unless its name was confirmed, and then each call
-- is as it may be for that disk, where no regular file is allowed.
pub install_image_to_disk-Permitted :
    (a : Answers) (source : Text) (disk : DiskIdentity) (confirmation : Text)
    → All
        (λ call.
          (file_name (components disk.path) ≡ some confirmation)
          × Permitted a disk.path false (some disk) call)
        (install_image_to_disk a source disk confirmation).calls
unfolding install_image_to_disk
install_image_to_disk-Permitted a source disk confirmation =
    then_run-All _ (refuse_if (not (equals_some (file_name (components disk.path)) confirmation)) _)
      _
      λ u h.
        let confirmed = refuse_if-eq-ok _ _ h in
        All-both (Permitted a disk.path false (some disk))
          (equals_some-same _ confirmation (ground arith)) _
          (install_image_inner-Permitted a disk.path false (is_compressed source) (some disk))
