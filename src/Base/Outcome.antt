-- ===== src/Base/Outcome.antt =====
-- The outcome of code with a `while` loop that takes fuel: `running` means that the fuel ran out.
use mathlib.Core.Path.{◌≡◌, refl}
use ldms_test.Base.Errors.{Exc, Result, ok, err}

pub data Outcome {ℓ} (A : Type ℓ) : Type ℓ where
  done : A → Outcome A
  raised : Exc → Outcome A
  running : Outcome A

infixl 5 ◌>>=◌
abbrev pub ◌>>=◌ {ℓ κ} : {A : Type ℓ} {B : Type κ} → Outcome A → (A → Outcome B) → Outcome B
done a >>= f = f a
raised e >>= f = raised e
running >>= f = running

abbrev pub of_result {ℓ} : {A : Type ℓ} → Result A → Outcome A
of_result (ok a) = done a
of_result (err e) = raised e

pub >>=-eq-done {ℓ κ} :
    {A : Type ℓ} {B : Type κ} (m : Outcome A) (f : A → Outcome B) {b : B}
    → (m >>= f) ≡ done b
    → (a : A) × (m ≡ done a) × (f a ≡ done b)
>>=-eq-done (done a) f h = (a, refl, h)
>>=-eq-done (raised e) f h = cc
>>=-eq-done running f h = cc

pub done-injective {ℓ} : {A : Type ℓ} (a b : A) → done a ≡ done b → a ≡ b
done-injective a b h = cc
