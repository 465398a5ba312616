-- ===== src/Identifier/Hex/Fit.antt =====
-- FromHexString from the decoded bytes on: the number that it reads.
use koorde_dht.Prelude.{
  ℕ, zero, suc, ◌+◌, ◌-◌, ◌*◌, ◌^◌, ◌≤◌, ◌<◌, ◌≡◌, ◌≢◌, ◌↔◌, refl, sym, ap, ◌∙◌, inl, inr, true,
  false, List, [], ◌∷◌, ◌++◌, All, All-append, arith, length, length-append, length-replicate,
  length-drop, take-append-drop, All-drop, take, drop, replicate, ◌==◌, ltb, Bool-cases, ltb→lt,
  ltb_false→le, subst,
}
use koorde_dht.Result.{Error, Result, ok, err, errorf}
use koorde_dht.Identifier.Space.{Space, Ident, IsByte, is_over}
use koorde_dht.Identifier.Space.Value.{IsSpace, value, bits-add-extra, pow-256}
use koorde_dht.Identifier.Space.Valid.{IsId, is_over_iff}
use koorde_dht.Identifier.Hex.{all_zero, pad_id, fit_bytes}
use koorde_dht.Prelude.Powers.{pow-add}
use mathlib.Core.Bool.{false≢true}
use native.Mathlib.Nat.{pow-le-pow_right, one-le-pow}

value-append : (xs ys : Ident) → value (xs ++ ys) ≡ value xs * 256 ^ length ys + value ys
value-append [] ys = omega arith
value-append (x ∷ xs) ys = rw (length-append xs ys, pow-add, value-append xs ys) (omega arith)

zeros-bytes : (n : ℕ) → All IsByte (replicate n 0)
zeros-bytes zero = tt
zeros-bytes (suc n) = (omega arith, zeros-bytes n)

value-zeros : (n : ℕ) → value (replicate n 0) ≡ 0
value-zeros zero = refl
value-zeros (suc n) = omega (arith, value-zeros n)

all_zero-value : (xs : Ident) → all_zero xs ≡ true → value xs ≡ 0
unfolding all_zero
all_zero-value [] e = refl
all_zero-value (x ∷ xs) e = ground (arith, all_zero-value xs)

not-all_zero-value : (xs : Ident) → all_zero xs ≡ false → 0 < value xs
unfolding all_zero
not-all_zero-value [] e = cc
not-all_zero-value (x ∷ xs) e = elim (Bool-cases (x == 0)) [
  | inl z ↦ let p : 0 < value xs = not-all_zero-value xs (ground arith) in omega arith
  | inr nz ↦
      lead x (256 ^ length xs) (value xs) (ground arith) (one-le-pow (length xs) 256 (omega arith))
]
  where
    lead : (x m v : ℕ) → x ≢ 0 → 0 < m → 0 < x * m + v
    lead x m v hx hm = grind arith

-- What the reading of a number returns: its identifier, if the number is in the space.
pub record Reads (sp : Space) (number : ℕ) (out : Result Ident) : Type 0 where
  pub fits : number < 2 ^ sp.bits → (id : Ident) × (out ≡ ok id) × IsId sp id × (value id ≡ number)
  pub exceeds : 2 ^ sp.bits ≤ number → (e : Error) × (out ≡ err e)

module _ {sp : Space} {r : ℕ} (v : IsSpace sp r) where
  pad_id-Reads :
      (bt : List ℕ) → All IsByte bt → length bt ≤ sp.byte_len → Reads sp (value bt) (pad_id sp bt)
  unfolding pad_id
  pad_id-Reads bt h le = elim (Bool-cases (is_over sp id)) [
    | inl over ↦ record {
      fits = λ lt. absurd (false≢true (sym (over_iff.1 (small lt)) ∙ over));
      exceeds = λ _. (
        errorf "value exceeds %d-bit space (non-zero in top %d unused bits)",
        rw (over, pad_id) refl,
      );
    }
    | inr ok_bits ↦ record {
      fits = λ lt. (id, rw (ok_bits, pad_id) refl, valid (over_iff.0 ok_bits), number);
      exceeds = λ ge. absurd (omega (arith, over_iff.0 ok_bits, number));
    }
  ]
    where
      zeros : ℕ
      zeros = sp.byte_len - length bt

      id : Ident
      id = replicate zeros 0 ++ bt

      bytes : All IsByte id
      bytes = All-append IsByte (replicate zeros 0) bt (zeros-bytes zeros) h

      length_eq : length id ≡ sp.byte_len
      length_eq =
          omega (arith, length-append (replicate zeros 0) bt, length-replicate {A = ℕ} zeros 0)

      number : value id ≡ value bt
      number = rw (value-append, value-zeros) (omega arith)

      over_iff : (is_over sp id ≡ false) ↔ (value id < 2 ^ sp.bits)
      over_iff = is_over_iff v id bytes length_eq

      small : value bt < 2 ^ sp.bits → value id < 2 ^ sp.bits
      small lt = omega (arith, number)

      valid : value id < 2 ^ sp.bits → IsId sp id
      valid lt = record { length_eq = length_eq; bytes = bytes; below = lt }

  size-le : 2 ^ sp.bits ≤ 256 ^ sp.byte_len
  size-le = rw (pow-256 sp.byte_len) (
      pow-le-pow_right {n = 2} (omega arith) {i = sp.bits} {j = 8 * sp.byte_len}
        (omega (arith, bits-add-extra v)))

  pub fit_bytes-Reads : (bt : List ℕ) → All IsByte bt → Reads sp (value bt) (fit_bytes sp bt)
  unfolding fit_bytes
  fit_bytes-Reads bt h = elim (Bool-cases (ltb sp.byte_len (length bt))) [
    | inr short ↦ rw (short, fit_bytes) (pad_id-Reads bt h (ltb_false→le _ _ short))
    | inl long ↦
        let gt : sp.byte_len < length bt = ltb→lt _ _ long in
        elim (Bool-cases (all_zero front)) [
          | inl zeros ↦
              rw (long, fit_bytes)
                (rw (zeros, fit_bytes)
                  (subst (λ t. Reads sp t (pad_id sp back)) (same (all_zero-value front zeros))
                    (pad_id-Reads back (All-drop IsByte extra bt h)
                      (omega (arith, back_length gt)))))
          | inr lead ↦ record {
            fits = λ lt. absurd (omega (arith, big gt (not-all_zero-value front lead)));
            exceeds = λ _. (
              errorf "value exceeds %d-bit space (non-zero leading bytes)",
              rw (long, fit_bytes) (rw (lead, fit_bytes) refl),
            );
          }
        ]
  ]
    where
      extra : ℕ
      extra = length bt - sp.byte_len

      front : Ident
      front = take extra bt

      back : Ident
      back = drop extra bt

      back_length : sp.byte_len < length bt → length back ≡ sp.byte_len
      back_length gt = omega (arith, length-drop extra bt)

      split : value front * 256 ^ length back + value back ≡ value bt
      split = sym (value-append front back) ∙ ap value (take-append-drop extra bt)

      same : value front ≡ 0 → value back ≡ value bt
      same z = omega (arith, ap (λ (t : ℕ). t * 256 ^ length back) z, split)

      big : sp.byte_len < length bt → 0 < value front → 2 ^ sp.bits ≤ value bt
      big gt pos_front =
          let e : 256 ^ length back ≡ 256 ^ sp.byte_len =
            ap (λ (t : ℕ). 256 ^ t) (back_length gt) in
          omega (arith, size-le, e, split, scale (value front) (256 ^ length back) pos_front)
        where
          scale : (f m : ℕ) → 0 < f → m ≤ f * m
          scale f m h = grind arith
