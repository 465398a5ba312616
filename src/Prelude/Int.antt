-- ===== src/Prelude/Int.antt =====
-- Go's `int` as a signed integer over the native numbers (the library's ℤ has another ℕ).
use Prim.Native.Nat.{ℕ}

-- `negsuc n` is -(n + 1).
pub data ℤ : Type 0 where
  pos : ℕ → ℤ
  negsuc : ℕ → ℤ

-- max(z, 0): `z <= 0` is `to_nat z == 0`, and `z < k` is `ltb (to_nat z) k` at a positive k.
abbrev pub to_nat : ℤ → ℕ
to_nat (pos n) = n
to_nat (negsuc n) = 0
