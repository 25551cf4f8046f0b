-- ===== src/Outcome.antt =====
-- How a decoding ends in packages/upr_runtime/src/decoder/decoded_message.cpp. `fault` is undefined
-- behaviour of C++, an access out of the bounds of an array or a span; `out_of_fuel` has no
-- counterpart in the program.
use mathlib.Core.Path.{subst}
use universal_protocol_runti.Base.{◌≡◌, refl, Bool, true, false, Option, none, some, if◌then◌else◌}
use universal_protocol_runti.Core.{DecodeStatus}

pub data Outcome {ℓ} (A : Type ℓ) : Type ℓ where
  done : A → Outcome A
  failed : DecodeStatus → Outcome A
  fault out_of_fuel : Outcome A

infixl 5 ◌>>=◌ ◌>>◌
abbrev pub ◌>>=◌ {ℓ κ} : {A : Type ℓ} {B : Type κ} → Outcome A → (A → Outcome B) → Outcome B
done a >>= f = f a
failed status >>= f = failed status
fault >>= f = fault
out_of_fuel >>= f = out_of_fuel

abbrev pub ◌>>◌ {ℓ κ} : {A : Type ℓ} {B : Type κ} → Outcome A → Outcome B → Outcome B
o >> p = o >>= λ _. p

-- if (b) { return status; }
abbrev pub fail_if : Bool → DecodeStatus → Outcome (Unit {0})
fail_if b status = if b then failed status else done tt

-- The value, or `return status;` where there is none.
abbrev pub or_fail {ℓ} : {A : Type ℓ} → Option A → DecodeStatus → Outcome A
or_fail none status = failed status
or_fail (some a) status = done a

-- Neither a fault nor out of fuel, and `P` of the value if there is one.
pub data Ensures {ℓ κ} {A : Type ℓ} (P : A → Type κ) : Outcome A → Type (ℓ ⊔ κ) where
  holds : {a : A} → P a → Ensures P (done a)
  rejected : {status : DecodeStatus} → Ensures P (failed status)

module _ {ℓ κ} {A : Type ℓ} {P : A → Type κ} where
  pub Ensures-done : {o : Outcome A} {a : A} → Ensures P o → o ≡ done a → P a
  Ensures-done (holds h) e = subst P (cc) h
  Ensures-done rejected e = cc

  pub Ensures-if :
      (b : Bool) {x y : Outcome A}
      → (b ≡ true → Ensures P x)
      → (b ≡ false → Ensures P y)
      → Ensures P (if b then x else y)
  Ensures-if true hx hy = hx refl
  Ensures-if false hx hy = hy refl

  pub Ensures->>= {ℓ' κ'} :
      {B : Type ℓ'} {Q : B → Type κ'} {o : Outcome A} {f : A → Outcome B}
      → Ensures P o
      → ((a : A) → P a → Ensures Q (f a))
      → Ensures Q (o >>= f)
  Ensures->>= (holds {a} h) k = k a h
  Ensures->>= rejected k = rejected

  pub Ensures-or_fail :
      (o : Option A) (status : DecodeStatus)
      → ((a : A) → o ≡ some a → P a)
      → Ensures P (or_fail o status)
  Ensures-or_fail none status h = rejected
  Ensures-or_fail (some a) status h = holds (h a refl)

  -- The rest is reached only if the test fails.
  pub Ensures-fail_if :
      (b : Bool) (status : DecodeStatus) {o : Outcome A}
      → (b ≡ false → Ensures P o)
      → Ensures P (fail_if b status >> o)
  Ensures-fail_if true status h = rejected
  Ensures-fail_if false status h = h refl

  pub Ensures-mono {κ'} :
      {Q : A → Type κ'} {o : Outcome A} → Ensures P o → ((a : A) → P a → Q a) → Ensures Q o
  Ensures-mono (holds {a} h) k = holds (k a h)
  Ensures-mono rejected k = rejected
