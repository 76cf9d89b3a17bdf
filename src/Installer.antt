-- ===== src/Installer.antt =====
-- system/installer/src/lib.rs: the installer that writes an image to a disk. A path is UTF-8 text, so
-- that `to_str` and `display` give it back, and an error of the system is the text that it displays.
pub mod Disk
pub mod Target
pub mod Image
pub mod Command
pub mod Runs
pub mod Checked
pub mod Safety
pub mod Bounds
pub mod Written
pub mod Done
pub mod Arguments
pub mod Confirmed
pub mod Exit
pub mod Identity
mod Tests
use alpenglow.Prelude.{ℕ, Text, Bool, true, false, Option, none, some, List, [], ◌++◌}

pub data InstallError : Type 0 where
  io invalid_target : Text → InstallError

pub data Result {ℓ} (A : Type ℓ) : Type ℓ where
  ok : A → Result A
  err : InstallError → Result A

-- `?`
infixl 5 ◌>>=◌ ◌>>◌
abbrev pub ◌>>=◌ {ℓ κ} : {A : Type ℓ} {B : Type κ} → Result A → (A → Result B) → Result B
ok a >>= k = k a
err e >>= k = err e

abbrev pub ◌>>◌ {ℓ} : {B : Type ℓ} → Result (Unit {0}) → Result B → Result B
m >> k = m >>= λ _. k

-- `if failed { return Err(e) }`
abbrev pub refuse_if : Bool → InstallError → Result (Unit {0})
refuse_if true e = err e
refuse_if false e = ok tt

pub data FileKind : Type 0 where
  regular block_device other_kind : FileKind

-- `fs::Metadata`, as far as it is read.
pub record Metadata : Type 0 where
  pub kind : FileKind
  pub dev : ℕ
  pub ino : ℕ
  pub rdev : ℕ

abbrev pub is_file : Metadata → Bool
is_file m = elim m.kind [ regular ↦ true | _ ↦ false ]

abbrev pub is_block_device : Metadata → Bool
is_block_device m = elim m.kind [ block_device ↦ true | _ ↦ false ]

pub record OpenOptions : Type 0 where
  pub write : Bool
  pub create_new : Bool
  -- The flag O_EXCL, with which the kernel refuses a disk that is in use.
  pub exclusive : Bool

-- The calls on the target: what is handed to the buffered writer goes to the target no later than
-- the flush, in order.
pub data Call : Type 0 where
  opened : OpenOptions → Call
  truncated flushed synced : Call
  -- `seek`, to the end and to the start
  sought_end rewound : Call
  wrote : List ℕ → Call

-- A result and the calls on the target before it.
pub record Run {ℓ} (A : Type ℓ) : Type ℓ where
  pub calls : List Call
  pub result : Result A

abbrev pub finish {ℓ} : {A : Type ℓ} → List Call → Result A → Run A
finish calls result = record { calls = calls; result = result }

-- What needs no call on the target, and what follows it.
abbrev pub then_run {ℓ κ} : {A : Type ℓ} {B : Type κ} → Result A → (A → Run B) → Run B
then_run (ok a) k = k a
then_run (err e) k = finish [] (err e)

-- Calls, and what follows them.
abbrev pub after {ℓ} : {A : Type ℓ} → List Call → Run A → Run A
after calls r = finish (calls ++ r.calls) r.result

abbrev pub then_also {ℓ κ} : {A : Type ℓ} {B : Type κ} → Run A → (A → Run B) → Run B
then_also r k = after r.calls (then_run r.result k)
