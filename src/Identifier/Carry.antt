-- ===== src/Identifier/Carry.antt =====
-- What the byte loops with a carry of MulKMod, AddMod and NextDigitBaseK compute.
use koorde_dht.Prelude.{ℕ, suc, ◌+◌, ◌*◌, ◌/◌, ◌%◌, ◌^◌, ◌≡◌, sym, ap, ◌∙◌, ◌∷◌, All, arith, length}
use koorde_dht.Identifier.Space.{Space, Ident, IsByte, mask_first}
use koorde_dht.Identifier.Space.Value.{IsSpace, value, value-mask_first}
use koorde_dht.Identifier.Space.Valid.{IsId, mask_first-IsId, mod-full}
use native.Mathlib.Nat.{pow-suc, mod-lt, add-mul-mod_self_right, div-add-mod'}

-- What the loops return: bytes, as many as they were given, that with the carry make up the number.
pub record Sums (n total : ℕ) (out : Ident × ℕ) : Type 0 where
  pub bytes : All IsByte out.0
  pub length_eq : length out.0 ≡ n
  pub number : value out.0 + out.1 * 256 ^ n ≡ total

pub cons-Sums :
    {n total : ℕ} {out : Ident × ℕ} (p s : ℕ)
    → s ≡ p + out.1
    → Sums n total out
    → Sums (suc n) (p * 256 ^ n + total) (s % 256 ∷ out.0, s / 256)
cons-Sums {n} {total} {out} p s e h = record {
  bytes = (mod-lt s (omega arith), h.bytes);
  length_eq = ap suc h.length_eq;
  number =
      rw (h.length_eq, pow-suc)
        (omega (
          arith,
          h.number,
          ap (λ (t : ℕ). t * 256 ^ n) e,
          ap (λ (t : ℕ). t * 256 ^ n) (div-add-mod' s 256),
        ));
}

module _ {sp : Space} {r : ℕ} (v : IsSpace sp r) where
  -- What is left when the carry is dropped and the first byte masked.
  pub mask_first-Sums :
      {total : ℕ} (out : Ident × ℕ)
      → Sums sp.byte_len total out
      → IsId sp (mask_first sp out.0) × (value (mask_first sp out.0) ≡ total % 2 ^ sp.bits)
  mask_first-Sums {total} out h = (
    mask_first-IsId v out.0 h.bytes h.length_eq,
    value-mask_first v out.0 h.bytes h.length_eq
        ∙ sym (mod-full v (value out.0))
        ∙ ap (λ (t : ℕ). t % 2 ^ sp.bits)
            (sym (add-mul-mod_self_right (value out.0) out.1 (256 ^ sp.byte_len)))
        ∙ mod-full v _
        ∙ ap (λ (t : ℕ). t % 2 ^ sp.bits) h.number,
  )
