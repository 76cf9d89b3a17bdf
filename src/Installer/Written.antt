-- ===== src/Installer/Written.antt =====
-- What an installation that succeeds has left on the target.
use mathlib.Core.Path.{subst}
use alpenglow.Prelude.{
  ℕ, zero, suc, ◌==◌, Text, Bool, true, false, ◌≡◌, ◌≢◌, refl, sym, ap, ◌∙◌, Option, none, some,
  List, [], ◌∷◌, ◌++◌, if◌then◌else◌, length, take, drop, arith, Bool-cases, inl, inr, append-nil,
}
use alpenglow.Installer.{
  ok, Metadata, is_block_device, OpenOptions, Call, opened, truncated, flushed, synced, sought_end,
  rewound, wrote,
}
use alpenglow.Installer.Disk.{DiskIdentity}
use alpenglow.Installer.Image.{
  Answers, Stream, inspect, is_block_target, open_options, open_output, prepare, copy_within, copy,
  take_stream, source_changed, expect_end, check_copied, copy_image, decode_and_copy,
  size_for_device, flush_and_sync, install_image_inner,
}
use alpenglow.Installer.Runs.{>>=-eq-ok, then_run-eq-ok, then_also-eq-ok}
use alpenglow.Installer.Checked.{kind_lem, open_output-IsChecked}

-- The calls leave these bytes up to the position of the writer, and those after it.
abbrev play : List Call → List ℕ × List ℕ → List ℕ × List ℕ
play [] s = s
play (wrote bytes ∷ calls) (done, rest) = play calls (done ++ bytes, drop (length bytes) rest)
play (sought_end ∷ calls) (done, rest) = play calls (done ++ rest, [])
play (rewound ∷ calls) (done, rest) = play calls ([], done ++ rest)
play (truncated ∷ calls) s = play calls ([], [])
play (opened _ ∷ calls) s = play calls s
play (flushed ∷ calls) s = play calls s
play (synced ∷ calls) s = play calls s

-- The target after the calls, if all succeed.
abbrev pub content_after : List Call → List ℕ → List ℕ
content_after calls old = let s = play calls ([], old) in s.0 ++ s.1

-- Where the last bytes are that were handed to the writer: a flush hands them to the system, and
-- after it a sync stores them.
pub data Durability : Type 0 where
  buffered in_system stored : Durability

abbrev on_sync : Durability → Durability
on_sync buffered = buffered
on_sync in_system = stored
on_sync stored = stored

abbrev pub durability : List Call → Durability → Durability
durability [] d = d
durability (wrote bytes ∷ calls) d = durability calls buffered
durability (flushed ∷ calls) d = durability calls in_system
durability (synced ∷ calls) d = durability calls (on_sync d)
durability (truncated ∷ calls) d = durability calls d
durability (sought_end ∷ calls) d = durability calls d
durability (rewound ∷ calls) d = durability calls d
durability (opened _ ∷ calls) d = durability calls d

-- All that was read was written.
record IsCopied (a : Answers) (n : ℕ) (calls : List Call) : Type 0 where
  whole : a.stream.ending ≡ none
  counted : n ≡ length a.stream.bytes
  copied : calls ≡ wrote a.stream.bytes ∷ []

copy_within-copied :
    (stream : Stream) (failure : Option (ℕ × Text)) (n : ℕ)
    → (copy_within stream failure).result ≡ ok n
    → (stream.ending ≡ none)
      × (n ≡ length stream.bytes)
      × ((copy_within stream failure).calls ≡ wrote stream.bytes ∷ [])
copy_within-copied stream none n h = ground arith
copy_within-copied stream (some (room, e)) n h = ground arith

source_changed-ne-ok : {n : ℕ} → source_changed {A = ℕ} ≢ ok n
source_changed-ne-ok h = cc

expect_end_complete :
    (copied n : ℕ) (rest : List ℕ) (ending : Option Text)
    → expect_end copied rest ending ≡ ok n
    → (n ≡ copied) × (rest ≡ []) × (ending ≡ none)
expect_end_complete copied n [] none h = ground arith
expect_end_complete copied n [] (some e) h = cc
expect_end_complete copied n (c ∷ rest) ending h = cc

check_copied_complete :
    (expected : ℕ) (stream : Stream) (copied n : ℕ)
    → check_copied expected stream copied ≡ ok n
    → (n ≡ copied) × (drop expected stream.bytes ≡ []) × (stream.ending ≡ none)
check_copied_complete expected stream copied n h = elim (Bool-cases (copied == expected)) [
  | inl same ↦
      expect_end_complete copied n (drop expected stream.bytes) stream.ending (rw same at h)
  | inr differs ↦ absurd (source_changed-ne-ok (rw differs at h))
]

drop-exhausts : (n : ℕ) (xs : List ℕ) → drop n xs ≡ [] → take n xs ≡ xs
drop-exhausts zero xs h = sym h
drop-exhausts (suc n) [] h = refl
drop-exhausts (suc n) (x ∷ xs) h = ap (λ ys. x ∷ ys) (drop-exhausts n xs h)

take_stream-whole :
    (n : ℕ) (stream : Stream)
    → drop n stream.bytes ≡ []
    → (take_stream n stream).bytes ≡ stream.bytes
unfolding take_stream
take_stream-whole n stream h = ground (arith, drop-exhausts n stream.bytes)

drop-nil : (n : ℕ) → drop {A = ℕ} n [] ≡ []
drop-nil zero = refl
drop-nil (suc n) = refl

copy_image-IsCopied :
    (a : Answers) (size : Option ℕ) (n : ℕ)
    → (copy_image a size).result ≡ ok n
    → IsCopied a n (copy_image a size).calls
unfolding copy_image copy
copy_image-IsCopied a none n h =
    let (whole, counted, copied) = copy_within-copied a.stream a.write_failure n h in
    record { whole = whole; counted = counted; copied = copied }
copy_image-IsCopied a (some size) n h =
    let taken = take_stream size a.stream in
    let (k, e, h1) = >>=-eq-ok (copy a taken).result _ h in
    let (ended, counted, copied) = copy_within-copied taken a.write_failure k e in
    let (same, exhausted, whole) = check_copied_complete size a.stream k n h1 in
    let all = take_stream-whole size a.stream exhausted in
    record {
      whole = whole;
      counted = same ∙ counted ∙ ap length all;
      copied = copied ∙ ap (λ bytes. wrote bytes ∷ []) all;
    }

decode_and_copy-IsCopied :
    (a : Answers) (compressed : Bool) (size : Option ℕ) (n : ℕ)
    → (decode_and_copy a compressed size).result ≡ ok n
    → IsCopied a n (decode_and_copy a compressed size).calls
unfolding decode_and_copy
decode_and_copy-IsCopied a compressed size n h =
    let (u, e, h1, same) = then_run-eq-ok (if compressed then a.decoder else ok tt) _ h in
    subst (IsCopied a n) (sym same) (copy_image-IsCopied a size n h1)

flush_and_sync-calls :
    (a : Answers) (n k : ℕ)
    → (flush_and_sync a n).result ≡ ok k
    → (k ≡ n) × ((flush_and_sync a n).calls ≡ flushed ∷ synced ∷ [])
unfolding flush_and_sync
flush_and_sync-calls a n k h = ground arith

-- The calls that prepare the target.
abbrev preparation : Bool → List Call
preparation true = sought_end ∷ rewound ∷ []
preparation false = truncated ∷ []

append_both : {xs xs' ys ys' : List Call} → xs ≡ xs' → ys ≡ ys' → xs ++ ys ≡ xs' ++ ys'
append_both {xs} {xs'} {ys} {ys'} ex ey = ap (λ zs. zs ++ ys) ex ∙ ap (λ zs. xs' ++ zs) ey

size_for_device-calls :
    (a : Answers) (compressed : Bool) (n : ℕ)
    → (size_for_device a compressed).result ≡ ok n
    → (size_for_device a compressed).calls ≡ preparation true
unfolding size_for_device
size_for_device-calls a compressed n h =
    let (c, e, h1, same) = then_run-eq-ok a.capacity _ h in
    let (u, e2, h2, same2) = then_run-eq-ok a.rewind_output _ h1 in
    ap (λ calls. sought_end ∷ calls) (same ∙ ap (λ calls. rewound ∷ calls) same2)

prepare-calls :
    (a : Answers) (compressed is_block : Bool) (size : Option ℕ)
    → (prepare a compressed is_block).result ≡ ok size
    → (prepare a compressed is_block).calls ≡ preparation is_block
unfolding prepare
prepare-calls a compressed true size h =
    let (n, e, h1, same) = then_also-eq-ok (size_for_device a compressed) _ h in
    same ∙ append_both (size_for_device-calls a compressed n e) refl
prepare-calls a compressed false size h = refl

record HasRun (a : Answers) (n : ℕ) (calls : List Call) : Type 0 where
  target : Metadata
  options : OpenOptions
  found : a.output_metadata ≡ ok target
  whole : a.stream.ending ≡ none
  counted : n ≡ length a.stream.bytes
  in_order :
      calls
      ≡ opened options ∷ preparation (is_block_device target)
        ++ (wrote a.stream.bytes ∷ flushed ∷ synced ∷ [])

install_image_inner-HasRun :
    (a : Answers) (target : Text) (allow_regular_file compressed : Bool)
    (expected : Option DiskIdentity) (n : ℕ)
    → (install_image_inner a target allow_regular_file compressed expected).result ≡ ok n
    → HasRun a n (install_image_inner a target allow_regular_file compressed expected).calls
unfolding install_image_inner open_output
install_image_inner-HasRun a target allow_regular_file compressed expected n h =
    let (before, hi, h1, same1) = then_run-eq-ok (inspect a target allow_regular_file) _ h in
    let output = open_output a target allow_regular_file expected before in
    let (u, ho, h2, same2) = then_also-eq-ok output _ h1 in
    let (m, checked) = open_output-IsChecked a target allow_regular_file expected before u ho in
    let (size, hp, h3, same3) =
      then_also-eq-ok (prepare a compressed (is_block_target before.target)) _ h2 in
    let (k, hk, h4, same4) = then_also-eq-ok (decode_and_copy a compressed size) _ h3 in
    let copied = decode_and_copy-IsCopied a compressed size k hk in
    let (counted, ending) = flush_and_sync-calls a k n h4 in
    let kind = kind_lem _ allow_regular_file m checked.kind in
    record {
      target = m;
      options = open_options before.target allow_regular_file;
      found = checked.found;
      whole = copied.whole;
      counted = counted ∙ copied.counted;
      in_order =
          same1
          ∙ same2
          ∙ append_both {xs = output.calls} refl (
              same3
              ∙ append_both
                  (prepare-calls a compressed (is_block_target before.target) size hp
                    ∙ ap preparation kind)
                  (same4 ∙ append_both copied.copied ending));
    }

content_lem :
    (is_block : Bool) (options : OpenOptions) (bytes old : List ℕ)
    → content_after
        (opened options ∷ preparation is_block ++ (wrote bytes ∷ flushed ∷ synced ∷ []))
        old
      ≡ bytes ++ (if is_block then drop (length bytes) old else [])
content_lem true options bytes old = ap (λ rest. bytes ++ drop (length bytes) rest) (append-nil old)
content_lem false options bytes old = ap (λ rest. bytes ++ rest) (drop-nil (length bytes))

durability_lem :
    (is_block : Bool) (options : OpenOptions) (bytes : List ℕ)
    → durability
        (opened options ∷ preparation is_block ++ (wrote bytes ∷ flushed ∷ synced ∷ []))
        buffered
      ≡ stored
durability_lem true options bytes = refl
durability_lem false options bytes = refl

-- The target holds the image, all of it is stored, and its length was returned.
pub record IsInstalled (a : Answers) (old : List ℕ) (n : ℕ) (calls : List Call) : Type 0 where
  pub target : Metadata
  pub found : a.output_metadata ≡ ok target
  pub whole : a.stream.ending ≡ none
  pub counted : n ≡ length a.stream.bytes
  pub content :
      content_after calls old
      ≡ a.stream.bytes ++ (if is_block_device target then drop n old else [])
  pub is_stored : durability calls buffered ≡ stored

-- An installation that succeeds has read the source to its end and returns its length; the target
-- begins with the image, and what follows it is what a block device held there, and nothing in a
-- file; and the last bytes are flushed and synced after they were written.
pub install_image_inner-IsInstalled :
    (a : Answers) (target : Text) (allow_regular_file compressed : Bool)
    (expected : Option DiskIdentity) (old : List ℕ) (n : ℕ)
    → (install_image_inner a target allow_regular_file compressed expected).result ≡ ok n
    → IsInstalled a old n
        (install_image_inner a target allow_regular_file compressed expected).calls
install_image_inner-IsInstalled a target allow_regular_file compressed expected old n h =
    let run = install_image_inner-HasRun a target allow_regular_file compressed expected n h in
    let block = is_block_device run.target in
    record {
      target = run.target;
      found = run.found;
      whole = run.whole;
      counted = run.counted;
      content =
          ap (λ calls. content_after calls old) run.in_order
          ∙ content_lem block run.options a.stream.bytes old
          ∙ ap (λ k. a.stream.bytes ++ (if block then drop k old else [])) (sym run.counted);
      is_stored =
          ap (λ calls. durability calls buffered) run.in_order
          ∙ durability_lem block run.options a.stream.bytes;
    }
