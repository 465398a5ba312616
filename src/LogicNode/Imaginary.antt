-- ===== src/LogicNode/Imaginary.antt =====
-- internal/node/logicnode/operation.go, FindSuccessorStep: the next imaginary node of a lookup.
pub mod Walk
use Prim.Native.String.{String}
use koorde_dht.Prelude.{ℕ, zero, suc}
use koorde_dht.Result.{Result, ok, err, panic, status, internal, ◌>>=◌}
use koorde_dht.Identifier.Space.{Space, Ident, from_uint64}
use koorde_dht.Identifier.Arith.{mul_k_mod, add_mod}
use koorde_dht.Identifier.Digits.{next_digit_base_k}

-- `return nil, status.Error(codes.Internal, msg)` on an error.
abbrev pub or_internal {ℓ} : {A : Type ℓ} → String → Result A → Result A
or_internal msg (ok a) = ok a
or_internal msg (err e) = err (status internal msg)
or_internal msg panic = panic

-- nextI and nextKshift from currentI and kshift.
unfoldable pub next_imaginary : Space → Ident → Ident → Result (Ident × Ident)
next_imaginary sp current_i kshift = do
  (next_digit, next_kshift) ←
      or_internal "failed to compute next digit and kshift" (next_digit_base_k sp kshift)
  shifted ← or_internal "failed to compute nextI" (mul_k_mod sp current_i)
  next_i ← or_internal "failed to compute nextI" (add_mod sp shifted (from_uint64 sp next_digit))
  ok (next_i, next_kshift)

-- Several imaginary steps.
unfoldable pub walk : Space → ℕ → Ident → Ident → Result (Ident × Ident)
walk sp zero current_i kshift = ok (current_i, kshift)
walk sp (suc m) current_i kshift = do
  (next_i, next_kshift) ← next_imaginary sp current_i kshift
  walk sp m next_i next_kshift
