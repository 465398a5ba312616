-- ===== src/Identifier/Digits.antt =====
-- internal/domain/identifier.go: NextDigitBaseK and BestImaginarySimple.
pub mod Next
pub mod Wide
use koorde_dht.Prelude.{
  ℕ, zero, suc, ◌+◌, ◌-◌, ◌*◌, ◌/◌, ◌%◌, ◌^◌, bit_and, bit_or, List, [], ◌∷◌, Option, none, some,
  ltb, ◌==◌, if◌then◌else◌, get_elem?,
}
use koorde_dht.Result.{Error, Result, ok, err, panic, wrap, wrap_err, ◌>>=◌}
use koorde_dht.Identifier.Space.{Space, Ident, extra_bits, mask_first, is_valid_id, from_uint64}
use koorde_dht.Identifier.Arith.{add_mod}

-- math/bits.TrailingZeros of a 64-bit word, which is 64 at 0; the count is of bits left to test.
unfoldable pub trailing_zeros_from : ℕ → ℕ → ℕ
trailing_zeros_from zero n = 0
trailing_zeros_from (suc f) n =
    let more = suc (trailing_zeros_from f (n / 2)) in if n % 2 == 1 then 0 else more

unfoldable pub trailing_zeros : ℕ → ℕ
trailing_zeros n = trailing_zeros_from 64 n

-- The loop that reads `n` more bits from bit `pos` on, most significant first, into a uint64.
-- An index past the last byte panics.
unfoldable pub digit_loop : ℕ → ℕ → ℕ → Ident → Result ℕ
digit_loop zero pos digit x = ok digit
digit_loop (suc n) pos digit x = elim (get_elem? x (pos / 8)) [
  | none ↦ panic
  | some b ↦
      digit_loop n (pos + 1) (bit_or (2 * digit % 2 ^ 64) (bit_and (b / 2 ^ (7 - pos % 8)) 1)) x
]

-- The loop that shifts left by r bits, from the last byte on: the bytes and the carry.
unfoldable pub shift_bytes : ℕ → Ident → Ident × ℕ
shift_bytes r [] = ([], 0)
shift_bytes r (b ∷ bs) =
    let (rest, carry) = shift_bytes r bs in (bit_or (b * 2 ^ r % 256) carry ∷ rest, b / 2 ^ (8 - r))

-- The shift count 8 - r is an int: the loop's first round panics where it is negative.
unfoldable pub shift_left : ℕ → Ident → Result Ident
shift_left r [] = ok []
shift_left r (b ∷ bs) = if ltb 8 r then panic else ok (shift_bytes r (b ∷ bs)).0

unfoldable pub next_digit_base_k : Space → Ident → Result (ℕ × Ident)
next_digit_base_k sp x = elim (is_valid_id sp x) [
  | some e ↦ err (wrap "NextDigitBaseK: invalid ID: %w" e)
  | none ↦ do
    digit ← digit_loop (trailing_zeros sp.graph_grade) (extra_bits sp) 0 x
    rest ← shift_left (trailing_zeros sp.graph_grade) x
    ok (digit, mask_first sp rest)
]

-- currentI and kshift; `succ` is not used.
unfoldable pub best_imaginary_simple : Space → Ident → Ident → Ident → Result (Ident × Ident)
best_imaginary_simple sp self succ target = do
  base ← wrap_err "BestImaginarySimple: AddMod failed: %w" (add_mod sp self (from_uint64 sp 1))
  ok (base, target)
