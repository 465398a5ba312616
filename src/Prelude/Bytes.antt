-- ===== src/Prelude/Bytes.antt =====
-- Go's masks and shifts of one byte, as arithmetic. The facts about masks are tables over the
-- values of a byte, checked by evaluation; the test for a power of two goes digit by digit.
use Prim.Native.Nat.{
  ℕ, zero, suc, ◌+◌, ◌-◌, ◌*◌, ◌/◌, ◌%◌, ◌^◌, ◌≤◌, ◌<◌, min, bit_and, bit_or, digits,
  bit_and-bitwise,
}
use mathlib.Core.Path.{◌≡◌, refl}
use mathlib.Core.Bool.{Bool, true, false, ◌&&◌}
use mathlib.Core.Logic.{inl, inr}
use native.Mathlib.Nat.{pow-suc}
use native.Mathlib.Omega.{arith}
use koorde_dht.Prelude.Tests.{◌==◌, ==_iff, Bool-cases}
use koorde_dht.Prelude.Powers.{mod_unique, div_unique}

all_below : ℕ → (ℕ → Bool) → Bool
all_below zero p = true
all_below (suc n) p = p n && all_below n p

all_below_sound : (n : ℕ) (p : ℕ → Bool) (i : ℕ) → all_below n p ≡ true → i < n → p i ≡ true
unfolding all_below
all_below_sound zero p i h lt = absurd (omega arith)
all_below_sound (suc n) p i h lt = ground (arith, all_below_sound n p i)

-- A table over two bounded arguments.
table_sound :
    (m n : ℕ) (f g : ℕ → ℕ → ℕ) (i j : ℕ)
    → all_below m (λ a. all_below n (λ b. f a b == g a b)) ≡ true
    → i < m
    → j < n
    → f i j ≡ g i j
table_sound m n f g i j h hi hj = (==_iff _ _).0 (
    all_below_sound n (λ b. f i b == g i b) j
      (all_below_sound m (λ a. all_below n (λ b. f a b == g a b)) i h hi) hj)

-- `b & byte(0xFF >> e)` keeps the low `8 - e` bits.
pub low_mask : (e b : ℕ) → e < 8 → b < 256 → bit_and b (255 / 2 ^ e) ≡ b % 2 ^ (8 - e)
unfolding all_below
low_mask e b = table_sound 8 256 (λ e b. bit_and b (255 / 2 ^ e)) (λ e b. b % 2 ^ (8 - e)) e b refl

-- `b & byte(0xFF << (8 - e))` keeps the other bits, in place.
pub high_mask :
    (e b : ℕ)
    → e < 8
    → b < 256
    → bit_and b (255 * 2 ^ (8 - e) % 256) ≡ b / 2 ^ (8 - e) * 2 ^ (8 - e)
unfolding all_below
high_mask e b =
    table_sound 8 256 (λ e b. bit_and b (255 * 2 ^ (8 - e) % 256))
      (λ e b. b / 2 ^ (8 - e) * 2 ^ (8 - e)) e b refl

-- `|` of a byte's high part and its low part is the byte.
join_bits : (r n : ℕ) → r < 9 → n < 256 → bit_or (n / 2 ^ r * 2 ^ r) (n % 2 ^ r) ≡ n
unfolding all_below
join_bits r n =
    table_sound 9 256 (λ r n. bit_or (n / 2 ^ r * 2 ^ r) (n % 2 ^ r)) (λ r n. n) r n refl

pub low_bit : (b : ℕ) → b < 256 → bit_and b 1 ≡ b % 2
unfolding all_below
low_bit b = table_sound 1 256 (λ i b. bit_and b 1) (λ i b. b % 2) 0 b refl (omega arith)

-- `byte << r` drops the high bits, and leaves room for `r` low ones.
shift_left : (r v : ℕ) → r < 9 → v < 256 → v * 2 ^ r % 256 ≡ v % 2 ^ (8 - r) * 2 ^ r
unfolding all_below
shift_left r v =
    table_sound 9 256 (λ r v. v * 2 ^ r % 256) (λ r v. v % 2 ^ (8 - r) * 2 ^ r) r v refl

shift_room :
    (r v : ℕ)
    → r < 9
    → v < 256
    → min ((v % 2 ^ (8 - r) + 1) * 2 ^ r) 256 ≡ (v % 2 ^ (8 - r) + 1) * 2 ^ r
unfolding all_below
shift_room r v =
    table_sound 9 256 (λ r v. min ((v % 2 ^ (8 - r) + 1) * 2 ^ r) 256)
      (λ r v. (v % 2 ^ (8 - r) + 1) * 2 ^ r) r v refl

-- `(v << r) | c` on a byte, for a carry of `r` bits.
pub shift_or :
    (r v c : ℕ)
    → r < 9
    → v < 256
    → c < 2 ^ r
    → (bit_or (v * 2 ^ r % 256) c ≡ v % 2 ^ (8 - r) * 2 ^ r + c)
      × (v % 2 ^ (8 - r) * 2 ^ r + c < 256)
shift_or r v c hr hv hc =
    let m = v % 2 ^ (8 - r) in
    let n = m * 2 ^ r + c in
    let fits : n < 256 = omega (arith, shift_room r v hr hv) in
    let q : n / 2 ^ r ≡ m = div_unique n (2 ^ r) m c (omega arith) hc in
    let s : n % 2 ^ r ≡ c = mod_unique n (2 ^ r) m c (omega arith) hc in
    (rw (shift_left r v hr hv) (rw (q, s) at (join_bits r n hr fits)), fits)

-- `b & 1` after a shift, on one more digit of a number below 256.
pub append_bit : (d b : ℕ) → d < 128 → b < 2 → bit_or (2 * d) b ≡ 2 * d + b
unfolding all_below
append_bit d b = table_sound 128 2 (λ d b. bit_or (2 * d) b) (λ d b. 2 * d + b) d b refl

abbrev and_digits : ℕ → ℕ → ℕ → ℕ
and_digits n a b = digits (λ b. zero) min n a b

and_digits_self : (n a : ℕ) → a ≤ n → and_digits n a a ≡ a
and_digits_self zero zero h = refl
and_digits_self zero (suc a) h = absurd (omega arith)
and_digits_self (suc n) zero h = refl
and_digits_self (suc n) (suc a) h = omega (arith, and_digits_self n (suc a / 2) (omega arith))

and_digits_pred : (n a : ℕ) → suc a ≤ n → and_digits n (suc a) a ≡ 0 → (k : ℕ) × (suc a ≡ 2 ^ k)
and_digits_pred zero a h e = absurd (omega arith)
and_digits_pred (suc n) a h e = elim (Bool-cases (a % 2 == 0)) [
  | inl even ↦ (0, odd_number even)
  | inr odd ↦ even_number (even_half odd) (and_digits_pred n (a / 2) (even_le odd) (rest odd))
]
  where
    half_odd : (a % 2 == 0) ≡ false → suc a / 2 ≡ suc (a / 2)
    half_odd odd = ground arith

    even_half : (a % 2 == 0) ≡ false → suc a ≡ 2 * suc (a / 2)
    even_half odd = ground arith

    even_le : (a % 2 == 0) ≡ false → suc (a / 2) ≤ n
    even_le odd = ground arith

    rest : (a % 2 == 0) ≡ false → and_digits n (suc (a / 2)) (a / 2) ≡ 0
    rest odd =
        rw (half_odd odd) at (let z : and_digits n (suc a / 2) (a / 2) ≡ 0 = omega arith in z)

    odd_number : (a % 2 == 0) ≡ true → suc a ≡ 2 ^ 0
    odd_number even =
        let p : a % 2 ≡ 0 = (==_iff (a % 2) 0).0 even in
        let half : suc a / 2 ≡ a / 2 = omega arith in
        let s : and_digits n (suc a / 2) (a / 2) ≡ a / 2 =
          rw half (and_digits_self n (a / 2) (omega arith)) in
        omega arith

    even_number :
        suc a ≡ 2 * suc (a / 2) → (k : ℕ) × (suc (a / 2) ≡ 2 ^ k) → (k : ℕ) × (suc a ≡ 2 ^ k)
    even_number d (k, p) = (suc k, rw pow-suc (omega arith))

-- `n & (n - 1) == 0` holds of powers of two only.
pub pow2_of_bit_and : (n : ℕ) → 0 < n → bit_and n (n - 1) ≡ 0 → (k : ℕ) × (n ≡ 2 ^ k)
pow2_of_bit_and zero h e = absurd (omega arith)
pow2_of_bit_and (suc n) h e =
    and_digits_pred (suc n) n (omega arith) (rw bit_and-bitwise at (rw pred_suc at e))
  where
    pred_suc : suc n - 1 ≡ n
    pred_suc = omega arith
