-- ===== src/Identifier/Arith.antt =====
-- internal/domain/identifier.go: MulKMod and AddMod, arithmetic on big-endian bytes.
pub mod Mod
use koorde_dht.Prelude.{ℕ, ◌+◌, ◌*◌, ◌/◌, ◌%◌, ◌^◌, List, [], ◌∷◌, Option, none, some}
use koorde_dht.Result.{Error, Result, ok, err, wrap, panic}
use koorde_dht.Identifier.Space.{Space, Ident, mask_first, is_valid_id}

-- The loop of MulKMod, from the last byte on: the bytes of the product and the carry, in uint64.
unfoldable pub mul_bytes : ℕ → Ident → Ident × ℕ
mul_bytes k [] = ([], 0)
mul_bytes k (b ∷ bs) =
    let (res, carry) = mul_bytes k bs in
    let prod = (b * k % 2 ^ 64 + carry) % 2 ^ 64 in (prod % 256 ∷ res, prod / 256)

-- The carry out of the first byte is ignored.
unfoldable pub mul_k_mod : Space → Ident → Result Ident
mul_k_mod sp a = elim (is_valid_id sp a) [
  | some e ↦ err e
  | none ↦ ok (mask_first sp (mul_bytes sp.graph_grade a).0)
]

-- The loop of AddMod. Both identifiers have been checked to have the same length.
unfoldable pub add_bytes : Ident → Ident → Ident × ℕ
add_bytes [] bs = ([], 0)
add_bytes (a ∷ as') [] = ([], 0)
add_bytes (a ∷ as') (b ∷ bs) =
    let (res, carry) = add_bytes as' bs in let sum = a + b + carry in (sum % 256 ∷ res, sum / 256)

unfoldable pub add_mod : Space → Ident → Ident → Result Ident
add_mod sp a b = elim (is_valid_id sp a) [
  | some e ↦ err (wrap "invalid ID a: %w" e)
  | none ↦ elim (is_valid_id sp b) [
    | some e ↦ err (wrap "invalid ID b: %w" e)
    | none ↦ ok (mask_first sp (add_bytes a b).0)
  ]
]
