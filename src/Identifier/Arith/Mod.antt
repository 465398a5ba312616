-- ===== src/Identifier/Arith/Mod.antt =====
-- MulKMod and AddMod compute the product and the sum modulo 2^Bits.
use koorde_dht.Prelude.{
  ℕ, suc, ◌+◌, ◌*◌, ◌%◌, ◌^◌, ◌≤◌, ◌<◌, ◌≡◌, refl, sym, ap, ◌∙◌, [], ◌∷◌, subst, All, arith, length,
}
use koorde_dht.Prelude.Powers.{pow_pos}
use koorde_dht.Result.{ok}
use koorde_dht.Identifier.Space.{Space, Ident, IsByte, mask_first}
use koorde_dht.Identifier.Space.Value.{IsSpace, value}
use koorde_dht.Identifier.Space.Valid.{IsId, IsId-is_valid_id}
use koorde_dht.Identifier.Arith.{mul_bytes, mul_k_mod, add_bytes, add_mod}
use koorde_dht.Identifier.Carry.{Sums, cons-Sums, mask_first-Sums}
use native.Mathlib.Nat.{mul_comm}

-- For k up to 2^56 the loop's bytes and carry are those of the product, and the carry stays below k.
mul_bytes-Sums :
    (k : ℕ) (a : Ident)
    → 0 < k
    → k ≤ 2 ^ 56
    → All IsByte a
    → Sums (length a) (value a * k) (mul_bytes k a) × ((mul_bytes k a).1 < k)
unfolding mul_bytes
mul_bytes-Sums k [] hk fits h = (record { bytes = tt; length_eq = refl; number = omega arith }, hk)
mul_bytes-Sums k (b ∷ bs) hk fits h =
    let (rest, small) = mul_bytes-Sums k bs hk fits h.1 in
    let c = (mul_bytes k bs).1 in
    let column : b * k + k ≤ 256 * k = times b k h.0 in
    let fit : (b * k % 2 ^ 64 + c) % 2 ^ 64 ≡ b * k + c = omega arith in
    (
      subst (λ t. Sums (suc (length bs)) t (mul_bytes k (b ∷ bs)))
          (total b k (256 ^ length bs) (value bs)) (cons-Sums (b * k) _ fit rest),
      omega arith,
    )
  where
    times : (b k : ℕ) → b < 256 → b * k + k ≤ 256 * k
    times b k h = grind arith

    total : (b k m v : ℕ) → b * k * m + v * k ≡ (b * m + v) * k
    total b k m v = omega arith

add_bytes-Sums :
    (a b : Ident)
    → length a ≡ length b
    → All IsByte a
    → All IsByte b
    → Sums (length a) (value a + value b) (add_bytes a b) × ((add_bytes a b).1 ≤ 1)
unfolding add_bytes
add_bytes-Sums [] [] e ha hb =
    (record { bytes = tt; length_eq = refl; number = omega arith }, omega arith)
add_bytes-Sums [] (b ∷ bs) e ha hb = absurd (omega arith)
add_bytes-Sums (a ∷ as') [] e ha hb = absurd (omega arith)
add_bytes-Sums (a ∷ as') (b ∷ bs) e ha hb =
    let tails : length as' ≡ length bs = omega arith in
    let (rest, small) = add_bytes-Sums as' bs tails ha.1 hb.1 in
    let step = cons-Sums (a + b) (a + b + (add_bytes as' bs).1) refl rest in
    (
      subst (λ t. Sums (suc (length as')) t (add_bytes (a ∷ as') (b ∷ bs)))
          (total a b (256 ^ length as') (256 ^ length bs) (value as') (value bs)
            (ap (λ (t : ℕ). 256 ^ t) tails))
          step,
      omega (arith, ha.0, hb.0),
    )
  where
    total : (a b m m' v w : ℕ) → m ≡ m' → (a + b) * m + (v + w) ≡ a * m + v + (b * m' + w)
    total a b m m' v w e = rw (← e) (omega arith)

module _ {sp : Space} {r : ℕ} (v : IsSpace sp r) where
  -- If the degree is at most 2^56, MulKMod of a valid identifier returns the valid identifier of the
  -- degree times its number modulo 2^Bits.
  pub mul_k_mod_lem :
      (a : Ident)
      → sp.graph_grade ≤ 2 ^ 56
      → IsId sp a
      → (res : Ident) × (mul_k_mod sp a ≡ ok res)
        × IsId sp res
        × (value res ≡ sp.graph_grade * value a % 2 ^ sp.bits)
  unfolding mul_k_mod
  mul_k_mod_lem a hk i =
      let sums : Sums sp.byte_len (value a * sp.graph_grade) (mul_bytes sp.graph_grade a) =
        rw (← i.length_eq) (mul_bytes-Sums sp.graph_grade a grade_pos hk i.bytes).0 in
      let (valid, number) = mask_first-Sums v _ sums in
      (
        mask_first sp (mul_bytes sp.graph_grade a).0,
        rw (IsId-is_valid_id v i, mul_k_mod) refl,
        valid,
        number ∙ ap (λ (t : ℕ). t % 2 ^ sp.bits) (mul_comm (value a) sp.graph_grade),
      )
    where
      grade_pos : 0 < sp.graph_grade
      grade_pos = rw v.grade_eq (pow_pos r)

  -- On two valid identifiers AddMod returns the valid identifier of their sum modulo 2^Bits.
  pub add_mod_lem :
      (a b : Ident)
      → IsId sp a
      → IsId sp b
      → (res : Ident) × (add_mod sp a b ≡ ok res)
        × IsId sp res
        × (value res ≡ (value a + value b) % 2 ^ sp.bits)
  unfolding add_mod
  add_mod_lem a b i j =
      let sums : Sums sp.byte_len (value a + value b) (add_bytes a b) =
        rw (← i.length_eq) (add_bytes-Sums a b (i.length_eq ∙ sym j.length_eq) i.bytes j.bytes).0 in
      let (valid, number) = mask_first-Sums v _ sums in
      (
        mask_first sp (add_bytes a b).0,
        rw (IsId-is_valid_id v i, IsId-is_valid_id v j, add_mod) refl,
        valid,
        number,
      )
