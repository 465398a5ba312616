-- ===== src/Tests/Ids.antt =====
-- Runs of the theorems on identifiers.
use Prim.Native.String.{String}
use koorde_dht.Prelude.{
  ℕ, ◌*◌, ◌%◌, ◌^◌, ◌/◌, ◌<◌, ◌≤◌, ◌≡◌, ◌⊎◌, ◌↔◌, true, refl, List, [], ◌∷◌, none, some, arith,
  length, take,
}
use koorde_dht.Result.{Error, ok, err, panic}
use koorde_dht.Identifier.Space.{Space, Ident, is_valid_id, new_id_from_string}
use koorde_dht.Identifier.Space.Value.{value}
use koorde_dht.Identifier.Space.Valid.{IsId, is_valid_id_iff, new_id_from_string_lem}
use koorde_dht.Identifier.Order.{between}
use koorde_dht.Identifier.Order.Circle.{offset, between_iff}
use koorde_dht.Identifier.Arith.{mul_k_mod}
use koorde_dht.Identifier.Arith.Mod.{mul_k_mod_lem}
use koorde_dht.Identifier.Digits.{next_digit_base_k}
use koorde_dht.Identifier.Digits.Next.{next_digit_base_k_lem}
use koorde_dht.Identifier.Digits.Wide.{next_digit_base_k_wide}
use koorde_dht.Prelude.{List, ◌≢◌, none, some}
use koorde_dht.Identifier.Hex.{Text, to_hex_string, from_hex_string, decode}
use koorde_dht.Identifier.Hex.Parse.{digits_of, from_hex_string_lem, from_hex_string-to_hex_string}
use koorde_dht.Tests.Data.{
  space, space-IsSpace, low, middle, high, low-IsId, middle-IsId, high-IsId,
}

is_valid_id_iff_example :
    (is_valid_id space middle ≡ none) ↔ ((length middle ≡ 2) × (value middle < 2 ^ 10))
is_valid_id_iff_example = is_valid_id_iff space-IsSpace middle (omega arith, (omega arith, tt))

abbrev short_digest : String → List ℕ
short_digest s = 255 ∷ 7 ∷ 9 ∷ []

new_id_from_string_lem_example :
    (2 ≤ 3
      → (id : Ident) × (new_id_from_string short_digest space "host:4000" ≡ ok id)
        × IsId space id
        × (value id ≡ value (take 2 (short_digest "host:4000")) % 2 ^ 10))
    × (3 < 2 → new_id_from_string short_digest space "host:4000" ≡ panic)
new_id_from_string_lem_example =
    new_id_from_string_lem space-IsSpace short_digest "host:4000"
      (omega arith, (omega arith, (omega arith, tt)))

between_iff_example : (between middle high low ≡ true) ↔ (
    (high ≡ low)
    ⊎ ((0 < offset (2 ^ 10) (value high) (value middle))
        × (offset (2 ^ 10) (value high) (value middle) ≤ offset (2 ^ 10) (value high) (value low))))
between_iff_example = between_iff middle-IsId high-IsId low-IsId

mul_k_mod_lem_example :
    (res : Ident) × (mul_k_mod space middle ≡ ok res)
    × IsId space res
    × (value res ≡ 8 * value middle % 2 ^ 10)
mul_k_mod_lem_example = mul_k_mod_lem space-IsSpace middle (omega arith) middle-IsId

next_digit_base_k_lem_example :
    (rest : Ident) × (next_digit_base_k space high ≡ ok (value high / 2 ^ 7, rest))
    × IsId space rest
    × (value rest ≡ value high * 2 ^ 3 % 2 ^ 10)
next_digit_base_k_lem_example =
    next_digit_base_k_lem space-IsSpace high-IsId (omega arith) (omega arith)

abbrev wide_space : Space
wide_space = record { bits = 10; byte_len = 2; graph_grade = 512; succ_list_size = 3 }

next_digit_base_k_wide_example : next_digit_base_k wide_space middle ≡ panic
next_digit_base_k_wide_example =
    next_digit_base_k_wide {k = 9}
      (record {
        bits_pos = omega arith;
        byte_len_eq = refl;
        log_pos = omega arith;
        grade_eq = refl;
        list_pos = omega arith;
      })
      (record { length_eq = refl; bytes = (omega arith, (omega arith, tt)); below = omega arith })
      (omega arith) (omega arith)

-- "0xf", whose one digit does not decode.
abbrev odd_text : Text
odd_text = b'0' ∷ b'x' ∷ b'f' ∷ []

from_hex_string_lem_example :
    ((id : Ident) × (bt : List ℕ) × (from_hex_string space odd_text ≡ ok id)
      × (digits_of odd_text ≢ [])
      × (decode (digits_of odd_text) ≡ some bt)
      × (value bt < 2 ^ 10)
      × IsId space id
      × (value id ≡ value bt))
    ⊎ ((e : Error) × (from_hex_string space odd_text ≡ err e)
        × ((digits_of odd_text ≡ [])
            ⊎ ((decode (digits_of odd_text) ≡ none)
                ⊎ ((bt : List ℕ) × (decode (digits_of odd_text) ≡ some bt) × (2 ^ 10 ≤ value bt)))))
from_hex_string_lem_example = from_hex_string_lem space-IsSpace odd_text

from_hex_string-to_hex_string_example :
    from_hex_string space (to_hex_string true (some middle)) ≡ ok middle
from_hex_string-to_hex_string_example =
    from_hex_string-to_hex_string space-IsSpace true middle middle-IsId
