-- ===== src/Installer/Image.antt =====
-- system/installer/src/lib.rs, lines 249-371: the installation of an image, on Linux. What the system
-- answers to each call, in the order of the calls, is a parameter: the target may become another file
-- between two calls.
use alpenglow.Prelude.{
  ℕ, ◌==◌, ltb, leb, Text, Bool, true, false, not, ◌&&◌, ◌||◌, Option, none, some, List, [], ◌∷◌,
  ◌++◌, if◌then◌else◌, length, take, drop, units, decimal,
}
use alpenglow.Installer.{
  io, invalid_target, Result, ok, err, ◌>>=◌, ◌>>◌, refuse_if, Metadata, is_file, is_block_device,
  OpenOptions, opened, truncated, flushed, synced, sought_end, rewound, wrote, Run, finish,
  then_run, after, then_also,
}
use alpenglow.Installer.Disk.{DiskIdentity, System, disk_identity, same_identity}
use alpenglow.Installer.Target.{target_metadata}

-- What a reader gives: bytes, and then the end or an error.
pub record Stream : Type 0 where
  pub bytes : List ℕ
  pub ending : Option Text

pub record Answers : Type 0 where
  -- `target.exists()` and `fs::metadata(target)`
  pub exists : Bool
  pub target : Result Metadata
  -- `File::open(source)` and `input.metadata()`
  pub source : Result (Unit {0})
  pub source_metadata : Result Metadata
  -- `options.open(target)` and `output.metadata()`
  pub output : OpenOptions → Result (Unit {0})
  pub output_metadata : Result Metadata
  pub system : System
  -- `output.seek`, to the end and back
  pub capacity : Result ℕ
  pub rewind_output : Result (Unit {0})
  -- The decoder and the copy to `io::sink`, and `input.seek`, to the end and back
  pub decoded_size : Result ℕ
  pub input_size : Result ℕ
  pub rewind_input : Result (Unit {0})
  -- `output.set_len(0)`
  pub set_len : Result (Unit {0})
  -- The second decoder, and what it or the source gives
  pub decoder : Result (Unit {0})
  pub stream : Stream
  -- How many bytes the buffered writer takes before it fails, if it does
  pub write_failure : Option (ℕ × Text)
  pub flush : Result (Unit {0})
  pub sync_all : Result (Unit {0})

-- The target as it was validated, and the source.
pub record Inspected : Type 0 where
  pub target : Option Metadata
  pub source : Metadata

unfoldable pub inspect : Answers → Text → Bool → Result Inspected
unfolding target_metadata
inspect a target allow_regular_file = do
  before ← target_metadata target allow_regular_file a.exists a.target
  a.source
  source ← a.source_metadata
  refuse_if (not (is_file source)) (io (units "source must be a regular image file"))
  ok (record { target = before; source = source })

abbrev pub is_some : Option Metadata → Bool
is_some none = false
is_some (some m) = true

abbrev pub is_block_target : Option Metadata → Bool
is_block_target none = false
is_block_target (some m) = is_block_device m

abbrev pub open_options : Option Metadata → Bool → OpenOptions
open_options before allow_regular_file = record {
  write = true;
  create_new = not (is_some before) && allow_regular_file;
  exclusive = is_block_target before || not allow_regular_file;
}

abbrev pub check_identity : System → Text → Metadata → Option DiskIdentity → Result (Unit {0})
check_identity system target m none = ok tt
check_identity system target m (some expected) = disk_identity system target m >>= λ found.
    refuse_if (not (same_identity found expected))
      (invalid_target (units "disk identity changed; select it again"))

abbrev pub same_node : Metadata → Metadata → Bool
same_node a b = a.dev == b.dev && a.ino == b.ino && a.rdev == b.rdev

abbrev pub same_file : Metadata → Metadata → Bool
same_file a b = a.dev == b.dev && a.ino == b.ino

abbrev pub is_other_node : Option Metadata → Metadata → Bool
is_other_node none m = false
is_other_node (some before) m = not (same_node before m)

abbrev same_truth : Bool → Bool → Bool
same_truth true b = b
same_truth false b = not b

-- A block device that was none, or a file that is not to be written.
abbrev pub is_other_kind : Bool → Bool → Metadata → Bool
is_other_kind is_block allow_regular_file m =
    not (same_truth (is_block_device m) is_block)
    || (not is_block && not (allow_regular_file && is_file m))

-- The checks of the open target, lines 284-321.
unfoldable pub check_output :
    Answers → Text → Bool → Option DiskIdentity → Inspected → Metadata → Result (Unit {0})
unfolding disk_identity same_identity
check_output a target allow_regular_file expected before m = do
  check_identity a.system target m expected
  let changed = invalid_target (units "target changed during validation")
  refuse_if (is_other_kind (is_block_target before.target) allow_regular_file m) changed
  refuse_if (is_other_node before.target m) changed
  refuse_if (same_file before.source m)
      (invalid_target (units "source and target are the same file or device"))
  ok tt

unfoldable pub open_output :
    Answers → Text → Bool → Option DiskIdentity → Inspected → Run (Unit {0})
unfolding check_output
open_output a target allow_regular_file expected before =
    let options = open_options before.target allow_regular_file in
    finish (opened options ∷ []) (do
      a.output options
      m ← a.output_metadata
      check_output a target allow_regular_file expected before m)

unfoldable pub does_not_fit : ℕ → ℕ → Text
unfolding decimal
does_not_fit image_size capacity =
    units "image requires "
    ++ (decimal image_size
        ++ (units " bytes but target has " ++ (decimal capacity ++ units " bytes")))

-- The size of the image, of which a block device must have room.
unfoldable pub fitting_size : Answers → Bool → ℕ → Result ℕ
unfolding does_not_fit
fitting_size a compressed capacity = do
  image_size ← if compressed then a.decoded_size else a.input_size
  a.rewind_input
  refuse_if (ltb capacity image_size) (invalid_target (does_not_fit image_size capacity))
  ok image_size

-- The capacity of the device is where its end is; then the output is at its start again.
unfoldable pub size_for_device : Answers → Bool → Run ℕ
unfolding fitting_size
size_for_device a compressed = after (sought_end ∷ []) (
    then_run a.capacity (λ capacity.
      after (rewound ∷ [])
        (then_run a.rewind_output (λ _. finish [] (fitting_size a compressed capacity)))))

-- Lines 322-343.
unfoldable pub prepare : Answers → Bool → Bool → Run (Option ℕ)
unfolding size_for_device
prepare a compressed true =
    then_also (size_for_device a compressed) (λ size. finish [] (ok (some size)))
prepare a compressed false = finish (truncated ∷ []) (a.set_len >>= λ _. ok none)

abbrev pub ending_of : ℕ → Option Text → Result ℕ
ending_of n none = ok n
ending_of n (some e) = err (io e)

abbrev pub copy_within : Stream → Option (ℕ × Text) → Run ℕ
copy_within stream none =
    finish (wrote stream.bytes ∷ []) (ending_of (length stream.bytes) stream.ending)
copy_within stream (some (room, e)) =
    if ltb room (length stream.bytes)
    then finish (wrote (take room stream.bytes) ∷ []) (err (io e))
    else finish (wrote stream.bytes ∷ []) (ending_of (length stream.bytes) stream.ending)

-- `io::copy`
unfoldable pub copy : Answers → Stream → Run ℕ
copy a stream = copy_within stream a.write_failure

-- `Read::take`
unfoldable pub take_stream : ℕ → Stream → Stream
take_stream n stream =
    if leb n (length stream.bytes)
    then record { bytes = take n stream.bytes; ending = none }
    else stream

abbrev pub source_changed : {A : Type 0} → Result A
source_changed = err (io (units "source image changed during installation"))

-- What a read of one more byte gives.
abbrev pub expect_end : ℕ → List ℕ → Option Text → Result ℕ
expect_end copied [] ending = ending_of copied ending
expect_end copied (_ ∷ _) ending = source_changed

abbrev pub check_copied : ℕ → Stream → ℕ → Result ℕ
check_copied expected stream copied =
    if copied == expected
    then expect_end copied (drop expected stream.bytes) stream.ending
    else source_changed

unfoldable pub copy_image : Answers → Option ℕ → Run ℕ
unfolding copy take_stream
copy_image a none = copy a a.stream
copy_image a (some expected) =
    let r = copy a (take_stream expected a.stream) in
    finish r.calls (r.result >>= check_copied expected a.stream)

-- Lines 344-361.
unfoldable pub decode_and_copy : Answers → Bool → Option ℕ → Run ℕ
unfolding copy_image
decode_and_copy a compressed size =
    then_run (if compressed then a.decoder else ok tt) (λ _. copy_image a size)

-- Lines 362-364.
unfoldable pub flush_and_sync : Answers → ℕ → Run ℕ
flush_and_sync a bytes =
    after (flushed ∷ [])
      (then_run a.flush (λ _. finish (synced ∷ []) (a.sync_all >>= λ _. ok bytes)))

unfoldable pub install_image_inner : Answers → Text → Bool → Bool → Option DiskIdentity → Run ℕ
unfolding inspect open_output prepare decode_and_copy flush_and_sync
install_image_inner a target allow_regular_file compressed expected =
    then_run (inspect a target allow_regular_file) (λ before.
      then_also (open_output a target allow_regular_file expected before) (λ _.
        then_also (prepare a compressed (is_block_target before.target))
          (λ size. then_also (decode_and_copy a compressed size) (flush_and_sync a))))
