-- ===== src/Identifier/Space.antt =====
-- internal/domain/identifier.go: Space, NewSpace, ID, Zero, NewIdFromString, IsValidID, FromUint64.
-- An identifier is the list of its bytes, most significant first.
pub mod Value
pub mod Valid
use Prim.Native.String.{String}
use koorde_dht.Prelude.{
  ℕ, zero, suc, ◌+◌, ◌-◌, ◌*◌, ◌/◌, ◌%◌, ◌^◌, ◌<◌, bit_and, Bool, false, not, List, [], ◌∷◌, ◌++◌,
  Option, none, some, ltb, leb, ◌==◌, if◌then◌else◌, length, take, replicate,
}
use koorde_dht.Prelude.Int.{ℤ, to_nat}
use koorde_dht.Result.{Error, Result, ok, err, panic, errorf, invalid_id}

pub record Space : Type 0 where
  pub bits : ℕ
  pub byte_len : ℕ
  pub graph_grade : ℕ
  pub succ_list_size : ℕ

abbrev pub Ident : Type 0
Ident = List ℕ

abbrev pub IsByte : ℕ → Type 0
IsByte b = b < 256

unfoldable pub new_space : ℤ → ℤ → ℤ → Result Space
new_space b degree succ_list_size =
    if to_nat b == 0
    then err (errorf "invalid identifier bits: %d (must be > 0)")
    else if ltb (to_nat degree) 2
    then err (errorf "invalid graph degree: %d (must be >= 2)")
    else if bit_and (to_nat degree) (to_nat degree - 1) == 0
    then (if to_nat succ_list_size == 0
        then err (errorf "invalid successor list size: %d (must be > 0)")
        else ok (record {
          bits = to_nat b;
          byte_len = (to_nat b + 7) / 8;
          graph_grade = to_nat degree;
          succ_list_size = to_nat succ_list_size;
        }))
    else err (errorf "invalid graph degree: %d (must be a power of 2)")

-- ByteLen*8 - Bits. Where it is negative in Go it is 0 here, and neither is positive.
abbrev pub extra_bits : Space → ℕ
extra_bits sp = sp.byte_len * 8 - sp.bits

unfoldable pub zero_id : Space → Ident
zero_id sp = replicate sp.byte_len 0

-- `if extraBits > 0 { mask := byte(0xFF >> extraBits); buf[0] &= mask }`, the step that four
-- methods share. With extra bits there is a first byte.
unfoldable pub mask_first : Space → Ident → Ident
mask_first sp [] = []
mask_first sp (b ∷ bs) =
    if ltb 0 (extra_bits sp) then bit_and b (255 / 2 ^ extra_bits sp) ∷ bs else b ∷ bs

-- `sha1` is crypto/sha1's Sum. The slice `h[:sp.ByteLen]` panics past the digest's end.
module _ (sha1 : String → List ℕ) where
  unfoldable pub new_id_from_string : Space → String → Result Ident
  new_id_from_string sp s =
      if leb sp.byte_len (length (sha1 s))
      then ok (mask_first sp (take sp.byte_len (sha1 s)))
      else panic

-- The test of the unused bits of the first byte, which IsValidID and FromHexString share.
-- 8 - extraBits is not negative, since a space has fewer than 8 extra bits.
unfoldable pub is_over : Space → Ident → Bool
is_over sp [] = false
is_over sp (b ∷ bs) =
    if ltb 0 (extra_bits sp)
    then not (bit_and b (255 * 2 ^ (8 - extra_bits sp) % 256) == 0)
    else false

-- The error of IsValidID, or none.
unfoldable pub is_valid_id : Space → Ident → Option Error
is_valid_id sp id =
    if length id == sp.byte_len
    then (if is_over sp id then some invalid_id else none)
    else some invalid_id

-- The loop of FromUint64 over the bytes not yet written, last byte first.
unfoldable pub fill_bytes : ℕ → ℕ → Ident
fill_bytes zero x = []
fill_bytes (suc n) x =
    let more = fill_bytes n (x / 256) ++ (x % 256 ∷ []) in
    if ltb 0 x then more else replicate (suc n) 0

unfoldable pub from_uint64 : Space → ℕ → Ident
from_uint64 sp x = mask_first sp (fill_bytes sp.byte_len x)
