-- ===== src/Identifier/Hex.antt =====
-- internal/domain/identifier.go: ToHexString, ToBigInt, ToBinaryString and FromHexString. A Go string
-- is the list of its bytes.
pub mod Codec
pub mod Fit
pub mod Parse
use koorde_dht.Prelude.{
  ℕ, zero, suc, ◌+◌, ◌-◌, ◌*◌, ◌/◌, ◌%◌, ◌^◌, Bool, true, false, ◌&&◌, List, [], ◌∷◌, ◌++◌, Option,
  none, some, ltb, leb, ◌==◌, if◌then◌else◌, length, take, drop, replicate,
}
use koorde_dht.Result.{Error, Result, ok, err, errorf, wrap, hex_error}
use koorde_dht.Identifier.Space.{Space, Ident, is_over}
use koorde_dht.Identifier.Space.Value.{value}

abbrev pub Text : Type 0
Text = List ℕ

-- A digit of encoding/hex: '0' to '9' and 'a' to 'f'.
unfoldable pub hex_digit : ℕ → ℕ
hex_digit d = if ltb d 10 then b'0' + d else b'a' + (d - 10)

-- hex.EncodeToString
unfoldable pub encode : Ident → Text
encode [] = []
encode (b ∷ bs) = hex_digit (b / 16) ∷ hex_digit (b % 16) ∷ encode bs

-- "<nil>"
abbrev pub nil_text : Text
nil_text = b'<' ∷ b'n' ∷ b'i' ∷ b'l' ∷ b'>' ∷ []

unfoldable pub to_hex_string : Bool → Option Ident → Text
to_hex_string prefix none = nil_text
to_hex_string true (some x) = b'0' ∷ b'x' ∷ encode x
to_hex_string false (some x) = encode x

unfoldable pub to_big_int : Option Ident → Option ℕ
to_big_int none = none
to_big_int (some x) = some (value x)

-- `%08b` of a byte: the digits of its n low bits, the highest first.
unfoldable pub bit_digits : ℕ → ℕ → Text
bit_digits zero b = []
bit_digits (suc n) b = (b'0' + b / 2 ^ n % 2) ∷ bit_digits n b

unfoldable pub binary_digits : Ident → Text
binary_digits [] = []
binary_digits (b ∷ bs) = bit_digits 8 b ++ binary_digits bs

unfoldable pub to_binary_string : Bool → Option Ident → Text
to_binary_string prefix none = nil_text
to_binary_string true (some x) = b'0' ∷ b'b' ∷ binary_digits x
to_binary_string false (some x) = binary_digits x

-- The value of a hexadecimal digit of either case.
unfoldable pub digit_value : ℕ → Option ℕ
digit_value c =
    if leb b'0' c && leb c b'9'
    then some (c - b'0')
    else if leb b'a' c && leb c b'f'
    then some (c - b'a' + 10)
    else if leb b'A' c && leb c b'F'
    then some (c - b'A' + 10)
    else none

abbrev pub pair_byte : Option ℕ → Option ℕ → Option (List ℕ) → Option (List ℕ)
pair_byte (some h) (some l) (some bs) = some ((16 * h + l) ∷ bs)
pair_byte (some h) (some l) none = none
pair_byte (some h) none bs = none
pair_byte none l bs = none

-- hex.DecodeString: none stands for its error, on a byte that is no digit or an odd length.
unfoldable pub decode : Text → Option (List ℕ)
decode [] = some []
decode (c ∷ []) = none
decode (c ∷ d ∷ s) = pair_byte (digit_value c) (digit_value d) (decode s)

-- strings.TrimPrefix(s, "0x"), and with 'X' for 'x'.
unfoldable pub trim_prefix : ℕ → Text → Text
trim_prefix x [] = []
trim_prefix x (c ∷ []) = c ∷ []
trim_prefix x (c ∷ d ∷ s) = if c == b'0' && d == x then s else c ∷ d ∷ s

unfoldable pub all_zero : List ℕ → Bool
all_zero [] = true
all_zero (b ∷ bs) = (b == 0) && all_zero bs

-- The end of FromHexString: left padding, and the test of the unused bits.
unfoldable pub pad_id : Space → List ℕ → Result Ident
pad_id sp bt =
    let id = replicate (sp.byte_len - length bt) 0 ++ bt in
    if is_over sp id
    then err (errorf "value exceeds %d-bit space (non-zero in top %d unused bits)")
    else ok id

-- FromHexString from the decoded bytes on.
unfoldable pub fit_bytes : Space → List ℕ → Result Ident
fit_bytes sp bt =
    let extra = length bt - sp.byte_len in
    if ltb sp.byte_len (length bt)
    then (if all_zero (take extra bt)
        then pad_id sp (drop extra bt)
        else err (errorf "value exceeds %d-bit space (non-zero leading bytes)"))
    else pad_id sp bt

unfoldable pub from_digits : Space → Text → Result Ident
from_digits sp [] = err (errorf "invalid hex string: empty input")
from_digits sp (c ∷ s) = elim (decode (c ∷ s)) [
  | none ↦ err (wrap "invalid hex string %q: %w" hex_error)
  | some bt ↦ fit_bytes sp bt
]

unfoldable pub from_hex_string : Space → Text → Result Ident
from_hex_string sp s = from_digits sp (trim_prefix b'X' (trim_prefix b'x' s))
