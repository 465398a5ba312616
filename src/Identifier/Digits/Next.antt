-- ===== src/Identifier/Digits/Next.antt =====
-- NextDigitBaseK splits off the first base-k digit.
use koorde_dht.Prelude.{
  ℕ, zero, suc, ◌+◌, ◌-◌, ◌*◌, ◌/◌, ◌%◌, ◌^◌, ◌≤◌, ◌<◌, ◌≡◌, refl, sym, ap, ap₂, ◌∙◌, bit_and,
  bit_or, [], ◌∷◌, some, All, arith, length, get_elem?, ltb, Bool-cases, inl, inr, ltb→lt,
  ltb_false→le,
}
use koorde_dht.Prelude.Powers.{pow-add, pow_pos, mod_unique, div_unique}
use koorde_dht.Prelude.Bytes.{shift_or, append_bit, low_bit}
use koorde_dht.Result.{ok}
use koorde_dht.Identifier.Space.{Space, Ident, IsByte, extra_bits, mask_first}
use koorde_dht.Identifier.Space.Value.{IsSpace, value, value-lt, pow-256, bits-add-extra}
use koorde_dht.Identifier.Space.Valid.{IsId, IsId-is_valid_id}
use koorde_dht.Identifier.Carry.{Sums, cons-Sums, mask_first-Sums}
use koorde_dht.Identifier.Digits.{
  trailing_zeros_from, trailing_zeros, digit_loop, shift_bytes, shift_left, next_digit_base_k,
}
use native.Mathlib.Nat.{
  pow-suc, div-div-eq-div-mul, div-add-mod', add-mul-div_right, div-lt_iff_lt-mul, div-le_self,
  lt_of_le_of_lt, lt_of_lt_of_le, pow-le-pow_right, add-zero,
}
use mathlib.Core.Path.{subst₂}

trailing_zeros_from-pow : (f r : ℕ) → r < f → trailing_zeros_from f (2 ^ r) ≡ r
unfolding trailing_zeros_from
trailing_zeros_from-pow zero r h = absurd (omega arith)
trailing_zeros_from-pow (suc f) zero h = refl
trailing_zeros_from-pow (suc f) (suc r) h =
    let e : 2 ^ suc r / 2 ≡ 2 ^ r = omega (arith, pow-suc 2 r) in
    let m : 2 ^ suc r % 2 ≡ 0 = omega (arith, pow-suc 2 r) in
    rw (e, m) (ap suc (trailing_zeros_from-pow f r (omega arith)))

-- On a power of two below 2^64, TrailingZeros is the exponent.
pub trailing_zeros-pow : (r : ℕ) → r < 64 → trailing_zeros (2 ^ r) ≡ r
unfolding trailing_zeros
trailing_zeros-pow r h = trailing_zeros_from-pow 64 r h

low_part : (b v m k : ℕ) → 0 < m → (b * (m * 2 * k) + v) / m % 2 ≡ v / m % 2
low_part b v m k h =
    let e : b * (m * 2 * k) + v ≡ v + b * k * 2 * m = omega arith in
    rw (e, add-mul-div_right v (b * k * 2) h) (omega arith)

-- The bit at position p from the most significant one, as a bit of the number.
bit_at :
    (x : Ident) (p q : ℕ)
    → All IsByte x
    → p + q + 1 ≡ 8 * length x
    → (b : ℕ) × (get_elem? x (p / 8) ≡ some b)
      × (b < 256)
      × (b / 2 ^ (7 - p % 8) % 2 ≡ value x / 2 ^ q % 2)
bit_at [] p q h e = absurd (omega arith)
bit_at (b ∷ bs) p q h e = elim (Bool-cases (ltb p 8)) [
  | inl first ↦ in_first (ltb→lt p 8 first)
  | inr later ↦
      let far : 8 ≤ p = ltb_false→le p 8 later in
      in_rest far (bit_at bs (p - 8) q h.1 (omega arith))
]
  where
    n : ℕ
    n = length bs

    in_first :
        p < 8
        → (c : ℕ) × (get_elem? (b ∷ bs) (p / 8) ≡ some c)
          × (c < 256)
          × (c / 2 ^ (7 - p % 8) % 2 ≡ value (b ∷ bs) / 2 ^ q % 2)
    in_first lt =
        let z : p / 8 ≡ 0 = omega arith in
        let s : 7 - p % 8 ≡ 7 - p = omega arith in
        let w : q ≡ 8 * n + (7 - p) = omega arith in
        (b, rw z refl, h.0, rw (s, w, pow-add, ← pow-256 n, ← div-div-eq-div-mul, whole) refl)
      where
        whole : (b * 256 ^ n + value bs) / 256 ^ n ≡ b
        whole = div_unique _ (256 ^ n) b (value bs) (omega arith) (value-lt bs h.1)

    in_rest :
        8 ≤ p
        → (c : ℕ) × (get_elem? bs ((p - 8) / 8) ≡ some c)
          × (c < 256)
          × (c / 2 ^ (7 - (p - 8) % 8) % 2 ≡ value bs / 2 ^ q % 2)
        → (c : ℕ) × (get_elem? (b ∷ bs) (p / 8) ≡ some c)
          × (c < 256)
          × (c / 2 ^ (7 - p % 8) % 2 ≡ value (b ∷ bs) / 2 ^ q % 2)
    in_rest far (c, found, small, bit) =
        let z : p / 8 ≡ suc ((p - 8) / 8) = omega arith in
        let s : p % 8 ≡ (p - 8) % 8 = omega arith in
        (
          c,
          rw z found,
          small,
          rw (s, bit, size, low_part b (value bs) (2 ^ q) (2 ^ (p - 8)) (pow_pos q)) refl,
        )
      where
        size : 256 ^ n ≡ 2 ^ q * 2 * 2 ^ (p - 8)
        size =
            pow-256 n
            ∙ ap (λ (t : ℕ). 2 ^ t) (let w : 8 * n ≡ suc q + (p - 8) = omega arith in w)
            ∙ pow-add 2 (suc q) (p - 8)
            ∙ ap (λ (t : ℕ). t * 2 ^ (p - 8)) (pow-suc 2 q)

shift_bytes-Sums :
    (r : ℕ) (x : Ident)
    → r ≤ 8
    → All IsByte x
    → Sums (length x) (value x * 2 ^ r) (shift_bytes r x) × ((shift_bytes r x).1 < 2 ^ r)
unfolding shift_bytes
shift_bytes-Sums r [] hr h =
    (record { bytes = tt; length_eq = refl; number = omega arith }, pow_pos r)
shift_bytes-Sums r (b ∷ bs) hr h =
    let (rest, small) = shift_bytes-Sums r bs hr h.1 in
    let c = (shift_bytes r bs).1 in
    let (joined, fits) = shift_or r b c (omega arith) h.0 small in
    let out : (b * 2 ^ r + c) % 256 ≡ bit_or (b * 2 ^ r % 256) c =
      mod_unique (b * 2 ^ r + c) 256 (b / 2 ^ (8 - r)) _ (split c _ joined) (rw joined fits) in
    let carry : (b * 2 ^ r + c) / 256 ≡ b / 2 ^ (8 - r) =
      div_unique (b * 2 ^ r + c) 256 (b / 2 ^ (8 - r)) _ (split c _ joined) (rw joined fits) in
    (
      subst₂ (λ t o. Sums (suc (length bs)) t o) (total b (2 ^ r) (256 ^ length bs) (value bs))
          (ap₂ (λ (d e : ℕ). let o : Ident × ℕ = (d ∷ (shift_bytes r bs).0, e) in o) out carry)
          (cons-Sums (b * 2 ^ r) (b * 2 ^ r + c) refl rest),
      (div-lt_iff_lt-mul (pow_pos (8 - r))).1 (omega (arith, whole, h.0)),
    )
  where
    whole : 2 ^ (8 - r) * 2 ^ r ≡ 256
    whole =
        sym (pow-add 2 (8 - r) r) ∙ ap (λ (t : ℕ). 2 ^ t) (let w : 8 - r + r ≡ 8 = omega arith in w)

    split : (c o : ℕ) → o ≡ b % 2 ^ (8 - r) * 2 ^ r + c → b * 2 ^ r + c ≡ o + b / 2 ^ (8 - r) * 256
    split c o e = omega (
      arith,
      e,
      ap (λ (t : ℕ). t * 2 ^ r) (div-add-mod' b (2 ^ (8 - r))),
      ap (λ (t : ℕ). b / 2 ^ (8 - r) * t) whole,
    )

    total : (b k m v : ℕ) → b * k * m + v * k ≡ (b * m + v) * k
    total b k m v = omega arith

module _ {sp : Space} {k : ℕ} (v : IsSpace sp k) {x : Ident} (i : IsId sp x) where
  -- The top `j` bits of the number.
  abbrev top_bits : ℕ → ℕ
  top_bits j = value x / 2 ^ (sp.bits - j)

  top_bits-lt : (j : ℕ) → j ≤ sp.bits → top_bits j < 2 ^ j
  top_bits-lt j h =
      (div-lt_iff_lt-mul (pow_pos (sp.bits - j))).1 (rw (← pow-add 2 j (sp.bits - j), size) i.below)
    where
      size : j + (sp.bits - j) ≡ sp.bits
      size = omega arith

  top_bits-suc : (j : ℕ) → j < sp.bits → top_bits (suc j) / 2 ≡ top_bits j
  top_bits-suc j h =
      div-div-eq-div-mul (value x) (2 ^ (sp.bits - suc j)) 2
      ∙ ap (λ (t : ℕ). value x / t) (sym (pow-suc 2 (sp.bits - suc j)))
      ∙ ap (λ (t : ℕ). value x / 2 ^ t)
          (let w : suc (sp.bits - suc j) ≡ sp.bits - j = omega arith in w)

  -- One round of the loop appends the next bit to the digit.
  digit_round :
      (n j : ℕ)
      → j < 8
      → j < sp.bits
      → digit_loop (suc n) (extra_bits sp + j) (top_bits j) x
        ≡ digit_loop n (extra_bits sp + suc j) (top_bits (suc j)) x
  unfolding digit_loop
  digit_round n j h8 hb =
      let (b, found, small, bit) =
        bit_at x (extra_bits sp + j) (sp.bits - suc j) i.bytes
          (omega (arith, bits-add-extra v, i.length_eq)) in
      let s = 7 - (extra_bits sp + j) % 8 in
      let masked : bit_and (b / 2 ^ s) 1 ≡ top_bits (suc j) % 2 =
        low_bit (b / 2 ^ s) (lt_of_le_of_lt (div-le_self b (2 ^ s)) small) ∙ bit in
      let room : top_bits j < 128 =
        lt_of_lt_of_le (top_bits-lt j (omega arith))
          (pow-le-pow_right {n = 2} (omega arith) {i = j} {j = 7} (omega arith)) in
      let word : 2 * top_bits j % 2 ^ 64 ≡ 2 * top_bits j = omega arith in
      let next : bit_or (2 * top_bits j) (top_bits (suc j) % 2) ≡ top_bits (suc j) =
        append_bit (top_bits j) (top_bits (suc j) % 2) room (omega arith)
        ∙ omega (arith, top_bits-suc j hb) in
      let place : extra_bits sp + j + 1 ≡ extra_bits sp + suc j = omega arith in
      rw (found, digit_loop) (ap₂ (λ (p d : ℕ). digit_loop n p d x) place (rw (masked, word) next))

  digit_loop_lem :
      (n j : ℕ)
      → j + n ≤ 8
      → j + n ≤ sp.bits
      → digit_loop n (extra_bits sp + j) (top_bits j) x ≡ ok (top_bits (j + n))
  digit_loop_lem zero j h8 hb =
      unfold digit_loop in ap (λ (t : ℕ). ok (top_bits t)) (let w : j ≡ j + 0 = omega arith in w)
  digit_loop_lem (suc n) j h8 hb =
      digit_round n j (omega arith) (omega arith)
      ∙ digit_loop_lem n (suc j) (omega arith) (omega arith)
      ∙ ap (λ (t : ℕ). ok (top_bits t)) (let w : suc j + n ≡ j + suc n = omega arith in w)

  -- If a digit has r bits, at most 8 and at most Bits, then on a valid identifier NextDigitBaseK
  -- returns the number's r most significant bits, and the valid identifier of the number shifted
  -- left by r bits modulo 2^Bits.
  pub next_digit_base_k_lem :
      k ≤ 8
      → k ≤ sp.bits
      → (rest : Ident) × (next_digit_base_k sp x ≡ ok (value x / 2 ^ (sp.bits - k), rest))
        × IsId sp rest
        × (value rest ≡ value x * 2 ^ k % 2 ^ sp.bits)
  next_digit_base_k_lem h8 hb =
      let tz : trailing_zeros sp.graph_grade ≡ k =
        ap trailing_zeros v.grade_eq ∙ trailing_zeros-pow k (omega arith) in
      let sums : Sums sp.byte_len (value x * 2 ^ k) (shift_bytes k x) =
        rw (← i.length_eq) (shift_bytes-Sums k x h8 i.bytes).0 in
      let (valid, number) = mask_first-Sums v _ sums in
      (mask_first sp (shift_bytes k x).0, run tz, valid, number)
    where
      start : top_bits 0 ≡ 0
      start = omega (arith, top_bits-lt 0 (omega arith))

      digit : digit_loop k (extra_bits sp) 0 x ≡ ok (value x / 2 ^ (sp.bits - k))
      digit =
          ap₂ (λ (p d : ℕ). digit_loop k p d x) (sym (add-zero (extra_bits sp))) (sym start)
          ∙ digit_loop_lem k 0 (omega arith) (omega arith)
          ∙ ap (λ (t : ℕ). ok (top_bits t)) (let w : 0 + k ≡ k = omega arith in w)

      shifted : (y : Ident) → shift_left k y ≡ ok (shift_bytes k y).0
      shifted [] = unfold shift_left shift_bytes in refl
      shifted (b ∷ bs) = unfold shift_left in ground arith

      run :
          trailing_zeros sp.graph_grade ≡ k
          → next_digit_base_k sp x
            ≡ ok (value x / 2 ^ (sp.bits - k), mask_first sp (shift_bytes k x).0)
      run tz =
          unfold next_digit_base_k in
          rw (IsId-is_valid_id v i, next_digit_base_k) (rw (tz, digit) (rw (shifted x) refl))
