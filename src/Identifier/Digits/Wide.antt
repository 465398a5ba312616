-- ===== src/Identifier/Digits/Wide.antt =====
-- Degrees above 256, and the first imaginary node of a lookup.
use koorde_dht.Prelude.{
  ℕ, zero, suc, ◌+◌, ◌/◌, ◌%◌, ◌^◌, ◌<◌, ◌≡◌, refl, ap, ◌∙◌, ◌⊎◌, inl, inr, [], ◌∷◌, arith,
  get_elem?, Option-cases, length,
}
use koorde_dht.Result.{ok, panic}
use koorde_dht.Identifier.Space.{Space, Ident, extra_bits, from_uint64}
use koorde_dht.Identifier.Space.Value.{IsSpace, value}
use koorde_dht.Identifier.Space.Valid.{IsId, IsId-is_valid_id, from_uint64_lem}
use koorde_dht.Identifier.Arith.Mod.{add_mod_lem}
use koorde_dht.Identifier.Digits.{
  trailing_zeros, digit_loop, shift_left, next_digit_base_k, best_imaginary_simple,
}
use koorde_dht.Identifier.Digits.Next.{trailing_zeros-pow}
use native.Mathlib.Nat.{add-mod-mod}

digit_loop_cases :
    (n p d : ℕ) (x : Ident)
    → ((digit : ℕ) × (digit_loop n p d x ≡ ok digit)) ⊎ (digit_loop n p d x ≡ panic)
unfolding digit_loop
digit_loop_cases zero p d x = inl (d, refl)
digit_loop_cases (suc n) p d x = elim (Option-cases (get_elem? x (p / 8))) [
  | inl out ↦ inr (rw (out, digit_loop) refl)
  | inr (b, found) ↦ rw (found, digit_loop) (digit_loop_cases n (p + 1) _ x)
]

module _ {sp : Space} {k : ℕ} (v : IsSpace sp k) where
  -- With a degree 2^k above 256 NextDigitBaseK panics on every valid identifier.
  pub next_digit_base_k_wide :
      {x : Ident} → IsId sp x → 8 < k → k < 64 → next_digit_base_k sp x ≡ panic
  unfolding next_digit_base_k
  next_digit_base_k_wide {x} i h8 h64 =
      let tz : trailing_zeros sp.graph_grade ≡ k =
        ap trailing_zeros v.grade_eq ∙ trailing_zeros-pow k h64 in
      rw (IsId-is_valid_id v i, next_digit_base_k)
        (rw tz (elim (digit_loop_cases k (extra_bits sp) 0 x) [
          | inl (d, e) ↦ rw e (rw (shift_panics x i.length_eq) refl)
          | inr e ↦ rw e refl
        ]))
    where
      shift_panics : (y : Ident) → length y ≡ sp.byte_len → shift_left k y ≡ panic
      shift_panics [] e = absurd (omega (arith, v.byte_len_eq, v.bits_pos))
      shift_panics (b ∷ bs) e = unfold shift_left in ground arith

  -- BestImaginarySimple starts at the imaginary node self + 1 and leaves the target unshifted.
  pub best_imaginary_simple_lem :
      {self : Ident} (succ target : Ident)
      → IsId sp self
      → (i : Ident) × (best_imaginary_simple sp self succ target ≡ ok (i, target))
        × IsId sp i
        × (value i ≡ (value self + 1) % 2 ^ sp.bits)
  unfolding best_imaginary_simple
  best_imaginary_simple_lem {self} succ target h =
      let (one_valid, one_value) = from_uint64_lem v 1 in
      let (i, e, valid, number) = add_mod_lem v self (from_uint64 sp 1) h one_valid in
      (
        i,
        rw e refl,
        valid,
        number
            ∙ ap (λ (t : ℕ). (value self + t) % 2 ^ sp.bits) one_value
            ∙ add-mod-mod (value self) 1 (2 ^ sp.bits),
      )
