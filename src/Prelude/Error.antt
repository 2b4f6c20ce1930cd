-- ===== src/Prelude/Error.antt =====
-- errorsx/reason.go and the error values of the standard library that the code tells apart.
-- `kit` is an error variable of kratos-kit, by its name; `status` is a gRPC status, by its code. The message-key metadata of a structured error is a digest of its message and is left out.
use Prim.Native.Nat.{ℕ}
use Prim.Native.String.{String}
use mathlib.Core.Path.{◌≡◌, refl}
use mathlib.Core.Logic.{◌⊎◌, inl, inr}
use mathlib.Core.Bool.{Bool, true, false, ◌||◌}

pub data Error : Type 0 where
  structured : ℕ → String → String → Error
  plain kit : String → Error
  not_obtained eof canceled : Error
  wrapped : String → Error → Error
  with_cause : Error → Error → Error
  status : ℕ → String → Error

abbrev pub invalid_argument : String → Error
invalid_argument message = structured 400 "INVALID_ARGUMENT" message

abbrev pub unauthenticated : String → Error
unauthenticated message = structured 401 "UNAUTHENTICATED" message

abbrev pub permission_denied : String → Error
permission_denied message = structured 403 "PERMISSION_DENIED" message

abbrev pub resource_not_found : String → Error
resource_not_found message = structured 404 "RESOURCE_NOT_FOUND" message

abbrev pub conflict : String → Error
conflict message = structured 409 "CONFLICT" message

abbrev pub rate_limited : String → Error
rate_limited message = structured 429 "RATE_LIMITED" message

abbrev pub internal : String → Error
internal message = structured 500 "INTERNAL_ERROR" message

-- errors.Is(err, ErrExecutionLockNotObtained)
abbrev pub is_not_obtained : Error → Bool
is_not_obtained not_obtained = true
is_not_obtained (wrapped _ e) = is_not_obtained e
is_not_obtained (with_cause e c) = is_not_obtained e || is_not_obtained c
is_not_obtained _ = false

pub data Result {ℓ} (A : Type ℓ) : Type ℓ where
  ok : A → Result A
  err : Error → Result A

pub Result-cases {ℓ} :
    {A : Type ℓ} (r : Result A) → ((a : A) × (r ≡ ok a)) ⊎ ((e : Error) × (r ≡ err e))
Result-cases (ok a) = inl (a, refl)
Result-cases (err e) = inr (e, refl)
