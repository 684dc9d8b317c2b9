-- ===== src/Base/Errors.antt =====
-- A Python function that may raise returns a `Result`; of an exception only its class is kept.
use mathlib.Core.Path.{◌≡◌, refl}
use mathlib.Core.Logic.{◌⊎◌, inl, inr}

pub data Exc : Type 0 where
  key_error type_error value_error attribute_error index_error : Exc
  name_error runtime_error assertion_exception stop_iteration database_error zero_division_error
        api_error :
      Exc

pub data Result {ℓ} (A : Type ℓ) : Type ℓ where
  ok : A → Result A
  err : Exc → Result A

pub Result-cases {ℓ} :
    {A : Type ℓ} (r : Result A) → ((a : A) × (r ≡ ok a)) ⊎ ((e : Exc) × (r ≡ err e))
Result-cases (ok a) = inl (a, refl)
Result-cases (err e) = inr (e, refl)

infixl 5 ◌>>=◌ ◌>>◌
abbrev pub ◌>>=◌ {ℓ κ} : {A : Type ℓ} {B : Type κ} → Result A → (A → Result B) → Result B
ok x >>= next = next x
err raised >>= next = err raised

abbrev pub ◌>>◌ {ℓ} : {B : Type ℓ} → Result (Unit {0}) → Result B → Result B
first >> second = first >>= λ _. second

pub >>=-eq-ok {ℓ κ} :
    {A : Type ℓ} {B : Type κ} (r : Result A) (next : A → Result B) {b : B}
    → (r >>= next) ≡ ok b
    → (x : A) × (r ≡ ok x) × (next x ≡ ok b)
>>=-eq-ok (ok x) next h = (x, refl, h)
>>=-eq-ok (err raised) next h = cc
