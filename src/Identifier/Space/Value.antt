-- ===== src/Identifier/Space/Value.antt =====
-- The number that an identifier stands for, and the masks of the first byte as arithmetic.
use koorde_dht.Prelude.{
  ℕ, zero, suc, ◌+◌, ◌-◌, ◌*◌, ◌/◌, ◌%◌, ◌^◌, ◌≤◌, ◌<◌, ◌≡◌, refl, sym, ap, ◌∙◌, inl, inr, [], ◌∷◌,
  ◌++◌, All, arith, length, length-append, ltb, Bool-cases, ltb_false→le,
}
use koorde_dht.Prelude.Powers.{pow-add, mod_unique, pow_pos}
use koorde_dht.Prelude.Bytes.{low_mask}
use koorde_dht.Identifier.Space.{Space, Ident, IsByte, extra_bits, mask_first}
use native.Mathlib.Nat.{
  pow-suc, div-add-mod', mod-lt, pow-succ', mod-eq_of_lt, mod-le, lt_of_le_of_lt,
}
use native.Mathlib.Numerals.{add-one}

-- A space as NewSpace makes it; `log_grade` is the base-2 logarithm of the degree.
pub record IsSpace (sp : Space) (log_grade : ℕ) : Type 0 where
  pub bits_pos : 0 < sp.bits
  pub byte_len_eq : sp.byte_len ≡ (sp.bits + 7) / 8
  pub log_pos : 0 < log_grade
  pub grade_eq : sp.graph_grade ≡ 2 ^ log_grade
  pub list_pos : 0 < sp.succ_list_size

new_space_grade : (d : ℕ) → 2 ≤ d → (k : ℕ) × (d ≡ 2 ^ k) → (k : ℕ) × ((0 < k) × (d ≡ 2 ^ k))
new_space_grade d h (zero, p) = absurd (omega arith)
new_space_grade d h (suc k, p) = (suc k, (omega arith, p))

-- The number of an identifier, ToBigInt: the first byte weighs most.
abbrev pub value : Ident → ℕ
value [] = 0
value (b ∷ bs) = b * 256 ^ length bs + value bs

pub value-lt : (id : Ident) → All IsByte id → value id < 256 ^ length id
value-lt [] h = omega arith
value-lt (b ∷ bs) h = rw pow-suc (omega (arith, value-lt bs h.1, shift_le b (256 ^ length bs) h.0))
  where
    shift_le : (b n : ℕ) → b < 256 → b * n + n ≤ 256 * n
    shift_le b n hb = grind arith

pub value-append_one : (id : Ident) (b : ℕ) → value (id ++ (b ∷ [])) ≡ value id * 256 + b
value-append_one [] b = omega arith
value-append_one (c ∷ id) b =
    rw (length-append id (b ∷ []), pow-suc', value-append_one id b) (omega arith)
  where
    pow-suc' : 256 ^ (length id + 1) ≡ 256 ^ length id * 256
    pow-suc' = rw (add-one, pow-suc)

pub pow-256 : (n : ℕ) → 256 ^ n ≡ 2 ^ (8 * n)
pow-256 zero = refl
pow-256 (suc n) = rw (pow-suc, pow-256 n, eight n, pow-add) refl
  where
    eight : (n : ℕ) → 8 * suc n ≡ 8 * n + 8
    eight n = omega arith

-- Reducing the first byte reduces the number.
mod_first : (b m c rest : ℕ) → 0 < c → rest < m → (b * m + rest) % (c * m) ≡ b % c * m + rest
mod_first b m c rest hc h = mod_unique _ (c * m) (b / c) _ split (fits (b % c) (mod-lt b hc))
  where
    split : b * m + rest ≡ b % c * m + rest + b / c * (c * m)
    split = omega (arith, ap (λ (t : ℕ). t * m) (div-add-mod' b c))

    fits : (x : ℕ) → x < c → x * m + rest < c * m
    fits x hx = grind arith

module _ {sp : Space} {r : ℕ} (v : IsSpace sp r) where
  pub extra-lt : extra_bits sp < 8
  extra-lt = omega (arith, v.byte_len_eq, v.bits_pos)

  pub bits-add-extra : sp.bits + extra_bits sp ≡ 8 * sp.byte_len
  bits-add-extra = omega (arith, v.byte_len_eq, v.bits_pos)

  -- The size of the space, split at the first byte.
  pub size_split : (n : ℕ) → suc n ≡ sp.byte_len → 2 ^ sp.bits ≡ 2 ^ (8 - extra_bits sp) * 256 ^ n
  size_split n e =
      ap (λ (t : ℕ). 2 ^ t) bits_eq
      ∙ pow-add 2 (8 - extra_bits sp) (8 * n)
      ∙ ap (λ (t : ℕ). 2 ^ (8 - extra_bits sp) * t) (sym (pow-256 n))
    where
      bits_eq : sp.bits ≡ 8 - extra_bits sp + 8 * n
      bits_eq = omega (arith, bits-add-extra, extra-lt)

  -- With no unused bits every string of bytes of the right length is in the space.
  pub below_of_extra-zero :
      (id : Ident)
      → All IsByte id
      → length id ≡ sp.byte_len
      → extra_bits sp ≤ 0
      → value id < 2 ^ sp.bits
  below_of_extra-zero [] h e z = absurd (omega (arith, v.byte_len_eq, v.bits_pos))
  below_of_extra-zero (b ∷ bs) h e z =
      rw (size_split (length bs) e, zero_extra, ← pow-succ') (value-lt (b ∷ bs) h)
    where
      zero_extra : extra_bits sp ≡ 0
      zero_extra = omega arith

  pub value-mask_first :
      (id : Ident)
      → All IsByte id
      → length id ≡ sp.byte_len
      → value (mask_first sp id) ≡ value id % 2 ^ sp.bits
  unfolding mask_first
  value-mask_first [] h e = absurd (omega (arith, v.byte_len_eq, v.bits_pos))
  value-mask_first (b ∷ bs) h e = elim (Bool-cases (ltb 0 (extra_bits sp))) [
    | inl more ↦
        rw (more, low_mask (extra_bits sp) b extra-lt h.0, size_split (length bs) e)
          (sym (mod_first b (256 ^ length bs) _ (value bs) (pow_pos _) (value-lt bs h.1)))
    | inr done ↦ rw done (
        sym (mod-eq_of_lt (below_of_extra-zero (b ∷ bs) h e (ltb_false→le 0 (extra_bits sp) done))))
  ]

  pub length-mask_first : (id : Ident) → length (mask_first sp id) ≡ length id
  unfolding mask_first
  length-mask_first [] = refl
  length-mask_first (b ∷ bs) = ground arith

  pub mask_first-bytes : (id : Ident) → All IsByte id → All IsByte (mask_first sp id)
  unfolding mask_first
  mask_first-bytes [] h = h
  mask_first-bytes (b ∷ bs) h = elim (Bool-cases (ltb 0 (extra_bits sp))) [
    | inl more ↦ rw (more, low_mask (extra_bits sp) b extra-lt h.0) (masked, h.1)
    | inr done ↦ rw done h
  ]
    where
      masked : b % 2 ^ (8 - extra_bits sp) < 256
      masked = lt_of_le_of_lt (mod-le b _) h.0
