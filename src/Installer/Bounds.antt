-- ===== src/Installer/Bounds.antt =====
-- How much the installer writes to a block device.
use alpenglow.Prelude.{
  ℕ, zero, suc, ◌+◌, ◌≤◌, ltb, Text, Bool, true, false, ◌≡◌, refl, sym, ap, ◌∙◌, Option, none, some,
  List, [], ◌∷◌, ◌++◌, if◌then◌else◌, length, take, arith,
}
use alpenglow.Installer.{
  Result, ok, err, Metadata, is_block_device, Call, opened, truncated, flushed, synced, sought_end,
  rewound, wrote, Run, then_run, then_also,
}
use alpenglow.Installer.Disk.{DiskIdentity}
use alpenglow.Installer.Image.{
  Answers, Stream, inspect, open_output, size_for_device, fitting_size, prepare, copy_within, copy,
  take_stream, copy_image, decode_and_copy, flush_and_sync, install_image_inner,
}
use alpenglow.Installer.Runs.{
  then_run-eq-ok, then_also-eq-ok, >>=-eq-ok, refuse_if-then, ok-injective,
}
use alpenglow.Installer.Checked.{kind_lem, open_output-IsChecked}

-- How many bytes are written.
abbrev pub written : List Call → ℕ
written [] = 0
written (wrote bytes ∷ calls) = length bytes + written calls
written (opened _ ∷ calls) = written calls
written (sought_end ∷ calls) = written calls
written (rewound ∷ calls) = written calls
written (truncated ∷ calls) = written calls
written (flushed ∷ calls) = written calls
written (synced ∷ calls) = written calls

written-append : (xs ys : List Call) → written (xs ++ ys) ≡ written xs + written ys
written-append [] ys = omega arith
written-append (wrote bytes ∷ xs) ys = omega (arith, written-append xs ys)
written-append (opened _ ∷ xs) ys = written-append xs ys
written-append (sought_end ∷ xs) ys = written-append xs ys
written-append (rewound ∷ xs) ys = written-append xs ys
written-append (truncated ∷ xs) ys = written-append xs ys
written-append (flushed ∷ xs) ys = written-append xs ys
written-append (synced ∷ xs) ys = written-append xs ys

module _ {ℓ κ} {A : Type ℓ} {B : Type κ} where
  then_run-AtMost :
      (n : ℕ) (r : Result A) (k : A → Run B)
      → ((a : A) → r ≡ ok a → written (k a).calls ≤ n)
      → written (then_run r k).calls ≤ n
  then_run-AtMost n (ok a) k h = h a refl
  then_run-AtMost n (err e) k h = omega arith

  then_also-AtMost :
      (m n l : ℕ) (r : Run A) (k : A → Run B)
      → m + n ≤ l
      → written r.calls ≤ m
      → ((a : A) → r.result ≡ ok a → written (k a).calls ≤ n)
      → written (then_also r k).calls ≤ l
  then_also-AtMost m n l r k hl hr hk =
      omega
        (arith, written-append r.calls (then_run r.result k).calls, then_run-AtMost n r.result k hk)

length-take : (n : ℕ) (xs : List ℕ) → length (take n xs) ≤ n
length-take zero xs = omega arith
length-take (suc n) [] = omega arith
length-take (suc n) (x ∷ xs) = omega (arith, length-take n xs)

take_shortens : (n : ℕ) (xs : List ℕ) → length (take n xs) ≤ length xs
take_shortens zero xs = omega arith
take_shortens (suc n) [] = omega arith
take_shortens (suc n) (x ∷ xs) = omega (arith, take_shortens n xs)

copy_within-AtMost :
    (stream : Stream) (failure : Option (ℕ × Text))
    → written (copy_within stream failure).calls ≤ length stream.bytes
copy_within-AtMost stream none = omega arith
copy_within-AtMost stream (some (room, e)) = ground (arith, take_shortens room stream.bytes)

take_stream-AtMost : (n : ℕ) (stream : Stream) → length (take_stream n stream).bytes ≤ n
unfolding take_stream
take_stream-AtMost n stream = ground (arith, length-take n stream.bytes)

copy_image-AtMost : (a : Answers) (n : ℕ) → written (copy_image a (some n)).calls ≤ n
unfolding copy_image copy
copy_image-AtMost a n = omega (
  arith,
  copy_within-AtMost (take_stream n a.stream) a.write_failure,
  take_stream-AtMost n a.stream,
)

decode_and_copy-AtMost :
    (a : Answers) (compressed : Bool) (n : ℕ)
    → written (decode_and_copy a compressed (some n)).calls ≤ n
unfolding decode_and_copy
decode_and_copy-AtMost a compressed n =
    then_run-AtMost n (if compressed then a.decoder else ok tt) _ λ u _. copy_image-AtMost a n

flush_and_sync-AtMost : (a : Answers) (n : ℕ) → written (flush_and_sync a n).calls ≤ 0
unfolding flush_and_sync
flush_and_sync-AtMost a n = then_run-AtMost 0 a.flush _ λ u _. omega arith

ltb-false : (c n : ℕ) → ltb c n ≡ false → n ≤ c
ltb-false c n h = ground arith

-- The image that a device has room for.
size_for_device-Fits :
    (a : Answers) (compressed : Bool) (c n : ℕ)
    → a.capacity ≡ ok c
    → (size_for_device a compressed).result ≡ ok n
    → n ≤ c
unfolding size_for_device fitting_size
size_for_device-Fits a compressed c n hc h =
    let (c', e1, h1, _) = then_run-eq-ok a.capacity _ h in
    let (u, e2, h2, _) = then_run-eq-ok a.rewind_output _ h1 in
    let (size, e3, h3) = >>=-eq-ok (if compressed then a.decoded_size else a.input_size) _ h2 in
    let (v, e4, h4) = >>=-eq-ok a.rewind_input _ h3 in
    let (fits, h5) = refuse_if-then (ltb c' size) _ _ h4 in
    let same = ok-injective (sym e1 ∙ hc) in
    let size_same = ok-injective h5 in omega (arith, ltb-false c' size fits)

size_for_device-writes :
    (a : Answers) (compressed : Bool) → written (size_for_device a compressed).calls ≤ 0
unfolding size_for_device
size_for_device-writes a compressed =
    then_run-AtMost 0 a.capacity _ λ c _. then_run-AtMost 0 a.rewind_output _ λ u _. omega arith

prepare-writes : (a : Answers) (compressed : Bool) → written (prepare a compressed true).calls ≤ 0
unfolding prepare
prepare-writes a compressed =
    then_also-AtMost 0 0 0 (size_for_device a compressed) _ (omega arith)
      (size_for_device-writes a compressed) (λ n _. omega arith)

prepare-Fits :
    (a : Answers) (compressed : Bool) (c : ℕ) (size : Option ℕ)
    → a.capacity ≡ ok c
    → (prepare a compressed true).result ≡ ok size
    → (n : ℕ) × (size ≡ some n) × (n ≤ c)
unfolding prepare
prepare-Fits a compressed c size hc h =
    let (n, e, h1, _) = then_also-eq-ok (size_for_device a compressed) _ h in
    (n, sym (ok-injective h1), size_for_device-Fits a compressed c n hc e)

-- What follows the checks.
copied_to_block-AtMost :
    (a : Answers) (compressed : Bool) (c : ℕ)
    → a.capacity ≡ ok c
    → written
        (then_also
          (prepare a compressed true)
          (λ size. then_also (decode_and_copy a compressed size) (flush_and_sync a))).calls
      ≤ c
copied_to_block-AtMost a compressed c hc =
    then_also-AtMost 0 c c (prepare a compressed true) _ (omega arith) (prepare-writes a compressed)
      λ size hs.
        let (n, e, fits) = prepare-Fits a compressed c size hc hs in
        rw e (
          then_also-AtMost n 0 c (decode_and_copy a compressed (some n)) _ (omega arith)
            (decode_and_copy-AtMost a compressed n) (λ k _. flush_and_sync-AtMost a k))

-- If the open target is a block device, then whatever the system answers to the other calls no more
-- is written than it has room for.
pub install_image_inner-AtMost :
    (a : Answers) (target : Text) (allow_regular_file compressed : Bool)
    (expected : Option DiskIdentity) (m : Metadata) (c : ℕ)
    → a.output_metadata ≡ ok m
    → is_block_device m ≡ true
    → a.capacity ≡ ok c
    → written (install_image_inner a target allow_regular_file compressed expected).calls ≤ c
unfolding install_image_inner
install_image_inner-AtMost a target allow_regular_file compressed expected m c hm hb hc =
    then_run-AtMost c (inspect a target allow_regular_file) _ λ before hi.
      then_also-AtMost 0 c c (open_output a target allow_regular_file expected before) _
        (omega arith) (omega arith)
        λ u ho.
          let (m', checked) =
            open_output-IsChecked a target allow_regular_file expected before u ho in
          let same = ok-injective (sym checked.found ∙ hm) in
          let block =
            kind_lem _ allow_regular_file m' checked.kind ∙ ap is_block_device same ∙ hb in
          rw block (copied_to_block-AtMost a compressed c hc)
