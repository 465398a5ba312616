-- ===== src/Identifier/Hex/Parse.antt =====
-- FromHexString: what it accepts, and that it reads back what ToHexString writes.
use koorde_dht.Prelude.{
  ℕ, ◌/◌, ◌%◌, ◌^◌, ◌≤◌, ◌<◌, ◌≡◌, ◌≢◌, refl, sym, ap, ◌∙◌, inl, inr, ◌⊎◌, Option-cases, Bool, true,
  false, List, [], ◌∷◌, none, some, All, arith, ltb, Bool-cases, ltb→lt, ltb_false→le,
}
use koorde_dht.Result.{Error, ok, err, errorf, wrap, hex_error}
use koorde_dht.Identifier.Space.{Space, Ident, IsByte}
use koorde_dht.Identifier.Space.Value.{IsSpace, value}
use koorde_dht.Identifier.Space.Valid.{IsId}
use koorde_dht.Identifier.Hex.{
  Text, hex_digit, encode, to_hex_string, digit_value, decode, trim_prefix, fit_bytes, from_digits,
  from_hex_string,
}
use koorde_dht.Identifier.Hex.Codec.{decode-encode, decode-IsByte, trim_prefix-encode}
use koorde_dht.Identifier.Order.Circle.{value-injective}
use koorde_dht.Identifier.Hex.Fit.{fit_bytes-Reads}

-- The text without a leading "0x", and then without a leading "0X".
abbrev pub digits_of : Text → Text
digits_of s = trim_prefix b'X' (trim_prefix b'x' s)

List-cases : (s : Text) → (s ≡ []) ⊎ ((c : ℕ) × (t : Text) × (s ≡ c ∷ t))
List-cases [] = inl refl
List-cases (c ∷ t) = inr (c, t, refl)

cons-nonempty : (c : ℕ) (t : Text) → c ∷ t ≢ []
cons-nonempty c t e = ground arith

module _ {sp : Space} {r : ℕ} (v : IsSpace sp r) where
  from_hex_string-decoded :
      (s : Text) (c : ℕ) (digits : Text) (bt : List ℕ)
      → trim_prefix b'X' (trim_prefix b'x' s) ≡ c ∷ digits
      → decode (c ∷ digits) ≡ some bt
      → All IsByte bt
      → (value bt < 2 ^ sp.bits
          → (id : Ident) × (from_hex_string sp s ≡ ok id) × IsId sp id × (value id ≡ value bt))
        × (2 ^ sp.bits ≤ value bt → (e : Error) × (from_hex_string sp s ≡ err e))
  from_hex_string-decoded s c digits bt trimmed decoded h =
      let reads = fit_bytes-Reads v bt h in
      (
        (λ lt. let (id, e, valid, number) = reads.fits lt in (id, run ∙ e, valid, number)),
        (λ ge. let (e, p) = reads.exceeds ge in (e, run ∙ p)),
      )
    where
      run : from_hex_string sp s ≡ fit_bytes sp bt
      run =
          unfold from_hex_string in
          rw trimmed (unfold from_digits in rw (decoded, from_digits) refl)

  -- On every text FromHexString returns either a valid identifier or an error. It returns an identifier
  -- exactly if the text, without a leading "0x" and then without a leading "0X", is not empty and
  -- decodes to bytes, which hexadecimal digits do only if their number is even, and the bytes'
  -- big-endian number, whatever its leading zeros, is below 2^Bits; the identifier has that number.
  pub from_hex_string_lem :
      (s : Text)
      → ((id : Ident) × (bt : List ℕ) × (from_hex_string sp s ≡ ok id)
          × (digits_of s ≢ [])
          × (decode (digits_of s) ≡ some bt)
          × (value bt < 2 ^ sp.bits)
          × IsId sp id
          × (value id ≡ value bt))
        ⊎ ((e : Error) × (from_hex_string sp s ≡ err e)
            × ((digits_of s ≡ [])
                ⊎ ((decode (digits_of s) ≡ none)
                    ⊎ ((bt : List ℕ) × (decode (digits_of s) ≡ some bt)
                        × (2 ^ sp.bits ≤ value bt)))))
  from_hex_string_lem s = elim (List-cases (digits_of s)) [
    | inl empty ↦ inr (
      errorf "invalid hex string: empty input",
      unfold from_hex_string in rw empty (unfold from_digits in refl),
      inl empty,
    )
    | inr (c, t, digits) ↦ elim (Option-cases (decode (c ∷ t))) [
      | inl bad ↦ inr (
        wrap "invalid hex string %q: %w" hex_error,
        unfold from_hex_string in rw digits (unfold from_digits in rw (bad, from_digits) refl),
        inr (inl (ap decode digits ∙ bad)),
      )
      | inr (bt, decoded) ↦
          let (reads, refuses) =
            from_hex_string-decoded s c t bt digits decoded (decode-IsByte (c ∷ t) bt decoded) in
          let whole : decode (digits_of s) ≡ some bt = ap decode digits ∙ decoded in
          elim (Bool-cases (ltb (value bt) (2 ^ sp.bits))) [
            | inl fits ↦
                let lt : value bt < 2 ^ sp.bits = ltb→lt _ _ fits in
                let (id, run, valid, number) = reads lt in
                inl (
                  id,
                  bt,
                  run,
                  (λ empty. cons-nonempty c t (sym digits ∙ empty)),
                  whole,
                  lt,
                  valid,
                  number,
                )
            | inr exceeds ↦
                let ge : 2 ^ sp.bits ≤ value bt = ltb_false→le _ _ exceeds in
                let (e, run) = refuses ge in inr (e, run, inr (inr (bt, whole, ge)))
          ]
    ]
  ]

  -- FromHexString reads back the text that ToHexString writes of a valid identifier, with its prefix
  -- and without.
  pub from_hex_string-to_hex_string :
      (prefix : Bool) (id : Ident)
      → IsId sp id
      → from_hex_string sp (to_hex_string prefix (some id)) ≡ ok id
  from_hex_string-to_hex_string prefix [] i =
      absurd (omega (arith, i.length_eq, v.byte_len_eq, v.bits_pos))
  from_hex_string-to_hex_string prefix (b ∷ bs) i =
      let (reads, _) =
        from_hex_string-decoded (to_hex_string prefix (some (b ∷ bs))) (hex_digit (b / 16))
          (hex_digit (b % 16) ∷ encode bs) (b ∷ bs) (trimmed prefix ∙ opened)
          (ap decode (sym opened) ∙ decode-encode (b ∷ bs) i.bytes) i.bytes in
      let (id, e, valid, number) = reads i.below in e ∙ ap ok (value-injective valid i number)
    where
      opened : encode (b ∷ bs) ≡ hex_digit (b / 16) ∷ hex_digit (b % 16) ∷ encode bs
      opened = unfold encode in refl

      no_x : digit_value b'x' ≡ none
      no_x = unfold digit_value in refl

      no_X : digit_value b'X' ≡ none
      no_X = unfold digit_value in refl

      upper : trim_prefix b'X' (encode (b ∷ bs)) ≡ encode (b ∷ bs)
      upper = trim_prefix-encode b'X' (b ∷ bs) i.bytes no_X

      trimmed :
          (prefix : Bool)
          → trim_prefix b'X' (trim_prefix b'x' (to_hex_string prefix (some (b ∷ bs))))
            ≡ encode (b ∷ bs)
      trimmed true = unfold to_hex_string trim_prefix in upper
      trimmed false = ap (trim_prefix b'X') lower ∙ upper
        where
          lower : trim_prefix b'x' (to_hex_string false (some (b ∷ bs))) ≡ encode (b ∷ bs)
          lower = unfold to_hex_string in trim_prefix-encode b'x' (b ∷ bs) i.bytes no_x
