-- ===== src/Result.antt =====
-- Go's errors and (value, error) results, shared by every component.
use Prim.Native.String.{String}
use mathlib.Core.Path.{◌≡◌, refl}
use mathlib.Core.Logic.{◌⊎◌, inl, inr}

-- The gRPC status codes that the program returns (google.golang.org/grpc/codes).
pub data Code : Type 0 where
  canceled unknown invalid_argument deadline_exceeded not_found internal : Code

-- The sentinel errors of the packages, and the errors that are made on the spot. A message is the
-- literal of its format, without the values formatted into it.
pub data Error : Type 0 where
  -- internal/domain: ErrInvalidID, ErrResourceNotFound
  invalid_id resource_not_found : Error
  -- internal/node/client: ErrNoConnInPool, ErrNoPredecessor, ErrTimeout
  no_conn_in_pool no_predecessor timeout : Error
  -- encoding/hex: InvalidByteError, ErrLength
  hex_error : Error
  -- context.Canceled, context.DeadlineExceeded
  context_canceled context_deadline : Error
  -- fmt.Errorf and errors.New
  errorf : String → Error
  -- fmt.Errorf with `%w`
  wrap : String → Error → Error
  -- status.Error and status.Errorf
  status : Code → String → Error

-- A value, an error, or a run-time panic.
pub data Result {ℓ} (A : Type ℓ) : Type ℓ where
  ok : A → Result A
  err : Error → Result A
  panic : Result A

infixl 5 ◌>>=◌
abbrev pub ◌>>=◌ {ℓ κ} : {A : Type ℓ} {B : Type κ} → Result A → (A → Result B) → Result B
ok a >>= f = f a
err e >>= f = err e
panic >>= f = panic

-- `return fmt.Errorf(msg + ": %w", err)` on an error.
abbrev pub wrap_err {ℓ} : {A : Type ℓ} → String → Result A → Result A
wrap_err msg (ok a) = ok a
wrap_err msg (err e) = err (wrap msg e)
wrap_err msg panic = panic

pub Result-cases {ℓ} :
    {A : Type ℓ} (r : Result A)
    → ((a : A) × (r ≡ ok a)) ⊎ (((e : Error) × (r ≡ err e)) ⊎ (r ≡ panic))
Result-cases (ok a) = inl (a, refl)
Result-cases (err e) = inr (inl (e, refl))
Result-cases panic = inr (inr refl)
