-- ===== src/Installer/Target.antt =====
-- system/installer/src/lib.rs, lines 208-230: what may be a target, by the answers of `exists` and
-- `fs::metadata`.
use alpenglow.Prelude.{Text, Bool, not, ◌&&◌, ◌||◌, Option, none, some, ◌++◌, if◌then◌else◌, units}
use alpenglow.Installer.{invalid_target, Result, ok, err, ◌>>=◌, Metadata, is_file, is_block_device}

unfoldable pub target_metadata : Text → Bool → Bool → Result Metadata → Result (Option Metadata)
target_metadata target allow_regular_file exists metadata =
    if allow_regular_file && not exists
    then ok none
    else metadata >>= λ m.
        if (is_file m && allow_regular_file) || is_block_device m
        then ok (some m)
        else err (
            invalid_target (units "refusing to write image to non-block-device target: " ++ target))

unfoldable pub validate_target : Text → Bool → Bool → Result Metadata → Result (Unit {0})
unfolding target_metadata
validate_target target allow_regular_file exists metadata =
    target_metadata target allow_regular_file exists metadata >>= λ _. ok tt
