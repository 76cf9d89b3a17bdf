-- ===== src/Installer/Runs.antt =====
-- What holds of the calls of a run that is put together from others.
use alpenglow.Prelude.{Bool, true, false, ◌≡◌, refl, ap, ◌++◌, All, All-append}
use alpenglow.Installer.{
  InstallError, Result, ok, err, ◌>>=◌, refuse_if, Call, Run, then_run, then_also,
}

pub ok-injective {ℓ} : {A : Type ℓ} {a b : A} → ok a ≡ ok b → a ≡ b
ok-injective h = cc

pub >>=-eq-ok {ℓ κ} :
    {A : Type ℓ} {B : Type κ} (r : Result A) (k : A → Result B) {b : B}
    → (r >>= k) ≡ ok b
    → (a : A) × (r ≡ ok a) × (k a ≡ ok b)
>>=-eq-ok (ok a) k h = (a, refl, h)
>>=-eq-ok (err e) k h = cc

pub refuse_if-eq-ok :
    (failed : Bool) (e : InstallError) {u : Unit {0}} → refuse_if failed e ≡ ok u → failed ≡ false
refuse_if-eq-ok true e h = cc
refuse_if-eq-ok false e h = refl

-- A check, and what follows it.
pub refuse_if-then {ℓ} :
    {B : Type ℓ} (failed : Bool) (e : InstallError) (k : Unit {0} → Result B) {b : B}
    → (refuse_if failed e >>= k) ≡ ok b
    → (failed ≡ false) × (k tt ≡ ok b)
refuse_if-then true e k h = cc
refuse_if-then false e k h = (refl, h)

module _ (P : Call → Type 0) where
  module _ {ℓ κ} {A : Type ℓ} {B : Type κ} where
    pub then_run-All :
        (r : Result A) (k : A → Run B)
        → ((a : A) → r ≡ ok a → All P (k a).calls)
        → All P (then_run r k).calls
    then_run-All (ok a) k h = h a refl
    then_run-All (err e) k h = tt

    pub then_also-All :
        (r : Run A) (k : A → Run B)
        → All P r.calls
        → ((a : A) → r.result ≡ ok a → All P (k a).calls)
        → All P (then_also r k).calls
    then_also-All r k hr hk =
        All-append P r.calls (then_run r.result k).calls hr (then_run-All r.result k hk)

module _ {ℓ κ} {A : Type ℓ} {B : Type κ} where
  pub then_run-eq-ok :
      (r : Result A) (k : A → Run B) {b : B}
      → (then_run r k).result ≡ ok b
      → (a : A) × (r ≡ ok a) × ((k a).result ≡ ok b) × ((then_run r k).calls ≡ (k a).calls)
  then_run-eq-ok (ok a) k h = (a, refl, h, refl)
  then_run-eq-ok (err e) k h = cc

  pub then_also-eq-ok :
      (r : Run A) (k : A → Run B) {b : B}
      → (then_also r k).result ≡ ok b
      → (a : A) × (r.result ≡ ok a)
        × ((k a).result ≡ ok b)
        × ((then_also r k).calls ≡ (r.calls ++ (k a).calls))
  then_also-eq-ok r k h =
      let (a, e, done, same) = then_run-eq-ok r.result k h in
      (a, e, done, ap (λ calls. r.calls ++ calls) same)

  -- A step that succeeds is passed.
  pub then_run_passes :
      (r : Result A) (k : A → Run B) {a : A} → r ≡ ok a → (then_run r k).result ≡ (k a).result
  then_run_passes r k e = ap (λ r. (then_run r k).result) e
