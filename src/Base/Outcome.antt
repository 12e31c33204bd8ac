-- ===== src/Base/Outcome.antt =====
-- What a call that may throw returns: the HTTP exceptions of the server as values.
use Prim.Native.Nat.{ℕ}
use Prim.Native.String.{String}
use mathlib.Core.Path.{◌≡◌, refl}
use mathlib.Core.Logic.{◌⊎◌, inl, inr}
use mathlib.Core.Bool.{Bool, true, false}
use mathlib.Core.Option.{Option}

-- NestJS's exceptions by their class, a plain `Error`, and `MomoApiException` with the upstream's
-- status where there is one.
pub data Error : Type 0 where
  bad_request : String → Error
  unauthorized : String → Error
  not_found : String → Error
  conflict : String → Error
  too_many_requests : String → Error
  unavailable : String → Error
  plain : String → Error
  momo_api : String → Option ℕ → Error

pub data Result {ℓ} (A : Type ℓ) : Type ℓ where
  ok : A → Result A
  err : Error → Result A

abbrev pub is_ok {ℓ} : {A : Type ℓ} → Result A → Bool
is_ok (ok a) = true
is_ok (err e) = false

abbrev pub throw_if : Bool → Error → Result (Unit {0})
throw_if true e = err e
throw_if false e = ok tt

pub Result-cases {ℓ} :
    {A : Type ℓ} (r : Result A) → ((a : A) × (r ≡ ok a)) ⊎ ((e : Error) × (r ≡ err e))
Result-cases (ok a) = inl (a, refl)
Result-cases (err e) = inr (e, refl)
