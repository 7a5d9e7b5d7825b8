-- ===== src/Base/Results.antt =====
-- What a request handler returns. An exception is its class; message texts are left out.
use mathlib.Core.Path.{◌≡◌, refl}
use mathlib.Core.Logic.{◌⊎◌, inl, inr}
use mathlib.Core.Bool.{Bool, true, false}
use mathlib.Core.Option.{Option, none, some}

-- The `HttpException` classes of @nestjs/common that the services throw.
pub data HttpError : Type 0 where
  bad_request unauthorized forbidden not_found conflict payload_too_large : HttpError
  -- any other `Error`, such as a failed call of the object store
  internal : HttpError
  -- a loop of the model that ran out of fuel
  stuck : HttpError

pub data Result {ℓ} (A : Type ℓ) : Type ℓ where
  err : HttpError → Result A
  ok : A → Result A

-- `if (c) throw e`
abbrev pub throw_if : Bool → HttpError → Result (Unit {0})
throw_if true e = err e
throw_if false e = ok tt

-- `if (!x) throw e`
abbrev pub or_throw {ℓ} : {A : Type ℓ} → Option A → HttpError → Result A
or_throw none e = err e
or_throw (some a) e = ok a

-- A statement that may throw, and what follows it.
infixl 5 ◌>>=◌
abbrev pub ◌>>=◌ {ℓ κ} : {A : Type ℓ} {B : Type κ} (r : Result A) (next : A → Result B) → Result B
err e >>= next = err e
ok a >>= next = next a

pub >>=-eq-ok {ℓ κ} :
    {A : Type ℓ} {B : Type κ} (r : Result A) (next : A → Result B) {b : B}
    → (r >>= next) ≡ ok b
    → (a : A) × (r ≡ ok a) × (next a ≡ ok b)
>>=-eq-ok (err e) next h = cc
>>=-eq-ok (ok a) next h = (a, refl, h)

infixl 5 ◌>>◌
abbrev pub ◌>>◌ {ℓ} : {B : Type ℓ} (r : Result (Unit {0})) (rest : Result B) → Result B
r >> rest = r >>= λ _. rest

pub Result-cases {ℓ} :
    {A : Type ℓ} (r : Result A) → ((a : A) × (r ≡ ok a)) ⊎ ((e : HttpError) × (r ≡ err e))
Result-cases (ok a) = inl (a, refl)
Result-cases (err e) = inr (e, refl)
