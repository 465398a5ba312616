-- ===== src/Identifier/Hex/Codec.antt =====
-- Decoding undoes encoding, so an identifier's text determines it.
use koorde_dht.Prelude.{
  ℕ, ◌+◌, ◌*◌, ◌/◌, ◌%◌, ◌<◌, ◌≡◌, ◌≢◌, refl, sym, ap, ◌∙◌, subst, List, Option, [], ◌∷◌, none,
  some, All, arith,
}
use koorde_dht.Identifier.Space.{Ident, IsByte}
use koorde_dht.Identifier.Hex.{Text, hex_digit, encode, digit_value, pair_byte, decode, trim_prefix}

-- An encoded digit is read back.
pub digit_value-hex_digit : (d : ℕ) → d < 16 → digit_value (hex_digit d) ≡ some d
unfolding digit_value hex_digit
digit_value-hex_digit d h = ground arith

pub decode-encode : (id : Ident) → All IsByte id → decode (encode id) ≡ some id
unfolding decode encode
decode-encode [] h = refl
decode-encode (b ∷ bs) h =
    let high = digit_value-hex_digit (b / 16) (omega (arith, h.0)) in
    let low = digit_value-hex_digit (b % 16) (omega arith) in
    let joined : 16 * (b / 16) + b % 16 ≡ b = omega arith in
    rw (high, low, decode-encode bs h.1) (ap (λ (t : ℕ). some (t ∷ bs)) joined)

pub encode-injective : (x y : Ident) → All IsByte x → All IsByte y → encode x ≡ encode y → x ≡ y
encode-injective x y hx hy e =
    let p : some x ≡ some y = sym (decode-encode x hx) ∙ ap decode e ∙ decode-encode y hy in cc

-- No prefix that ends in a letter which is no digit is cut from an encoded text.
pub trim_prefix-encode :
    (x : ℕ) (id : Ident)
    → All IsByte id
    → digit_value x ≡ none
    → trim_prefix x (encode id) ≡ encode id
unfolding trim_prefix encode
trim_prefix-encode x [] h none_value = refl
trim_prefix-encode x (b ∷ bs) h none_value =
    let low = digit_value-hex_digit (b % 16) (omega arith) in
    let other : hex_digit (b % 16) ≢ x =
      λ e. let p : some (b % 16) ≡ none = sym low ∙ ap digit_value e ∙ none_value in cc in
    ground arith

digit_value-le : (c d : ℕ) → digit_value c ≡ some d → d < 16
unfolding digit_value
digit_value-le c d e = ground arith

pair_byte-IsByte :
    (h l : Option ℕ) (rest : Option (List ℕ)) (bt : List ℕ)
    → ((d : ℕ) → h ≡ some d → d < 16)
    → ((d : ℕ) → l ≡ some d → d < 16)
    → ((bs : List ℕ) → rest ≡ some bs → All IsByte bs)
    → pair_byte h l rest ≡ some bt
    → All IsByte bt
pair_byte-IsByte (some h) (some l) (some bs) [] hh hl hr e = cc
pair_byte-IsByte (some h) (some l) (some bs) (b ∷ bt) hh hl hr e =
    let first : 16 * h + l ≡ b = cc in
    let more : bs ≡ bt = cc in
    (omega (arith, hh h refl, hl l refl), subst (All IsByte) more (hr bs refl))
pair_byte-IsByte (some h) (some l) none bt hh hl hr e = cc
pair_byte-IsByte (some h) none rest bt hh hl hr e = cc
pair_byte-IsByte none l rest bt hh hl hr e = cc

pub decode-IsByte : (s : Text) (bt : List ℕ) → decode s ≡ some bt → All IsByte bt
unfolding decode
decode-IsByte [] [] e = tt
decode-IsByte [] (b ∷ bt) e = cc
decode-IsByte (c ∷ []) bt e = cc
decode-IsByte (c ∷ d ∷ s) bt e =
    pair_byte-IsByte (digit_value c) (digit_value d) (decode s) bt (digit_value-le c)
      (digit_value-le d) (decode-IsByte s) e
