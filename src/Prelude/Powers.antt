-- ===== src/Prelude/Powers.antt =====
-- Powers of two and 256, and division with remainder by them.
use Prim.Native.Nat.{ℕ, zero, suc, ◌+◌, ◌*◌, ◌/◌, ◌%◌, ◌^◌, ◌<◌}
use mathlib.Core.Path.{◌≡◌, sym, ap, ◌∙◌}
use native.Mathlib.Nat.{
  pow-zero, pow-suc, one-le-pow, add-mul-mod_self_right, add-mul-div_right, mod-eq_of_lt,
  div-eq_of_lt, div-add-mod', add-zero, add-suc, mul-one, mul_assoc,
}
use native.Mathlib.Omega.{arith}

pub pow-add : (n a b : ℕ) → n ^ (a + b) ≡ n ^ a * n ^ b
pow-add n a zero = rw (add-zero, pow-zero) (sym (mul-one (n ^ a)))
pow-add n a (suc b) = rw (add-suc, pow-suc, pow-suc, pow-add n a b, mul_assoc)

pub pow_pos : (n : ℕ) → 0 < 2 ^ n
pow_pos n = one-le-pow n 2 (omega arith)

-- A quotient and a remainder that fit are the quotient and the remainder.
pub mod_unique : (v d q s : ℕ) → v ≡ s + q * d → s < d → v % d ≡ s
mod_unique v d q s e h = rw (e, add-mul-mod_self_right, mod-eq_of_lt h)

pub div_unique : (v d q s : ℕ) → v ≡ s + q * d → s < d → v / d ≡ q
div_unique v d q s e h =
    rw (e, add-mul-div_right s q {z = d} (omega arith), div-eq_of_lt h) (omega arith)

pub mod-mul : (n x y : ℕ) → x % n * y % n ≡ x * y % n
mod-mul n x y =
    sym (add-mul-mod_self_right (x % n * y) (x / n * y) n)
    ∙ ap (λ (t : ℕ). t % n) (joined (x / n) (x % n) x y n (div-add-mod' x n))
  where
    joined : (q r x y n : ℕ) → q * n + r ≡ x → r * y + q * y * n ≡ x * y
    joined q r x y n e = grind arith
