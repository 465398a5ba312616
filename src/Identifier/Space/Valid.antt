-- ===== src/Identifier/Space/Valid.antt =====
-- What IsValidID accepts, and that the operations that make identifiers make valid ones.
use Prim.Native.String.{String}
use koorde_dht.Prelude.{
  ℕ, zero, suc, ◌+◌, ◌-◌, ◌*◌, ◌/◌, ◌%◌, ◌^◌, ◌≤◌, ◌<◌, ◌≡◌, refl, sym, ap, ◌∙◌, ◌↔◌, inl, inr,
  bit_and, false, not, List, [], ◌∷◌, none, All, All-append, arith, length, length-append,
  length-replicate, length-take, ltb, ◌==◌, Bool-cases, ltb_false→le, take, replicate,
}
use koorde_dht.Prelude.Int.{ℤ, to_nat}
use koorde_dht.Prelude.Powers.{pow-add, mod_unique, pow_pos}
use koorde_dht.Prelude.Bytes.{high_mask, pow2_of_bit_and}
use koorde_dht.Result.{ok, panic}
use koorde_dht.Identifier.Space.{
  Space, Ident, IsByte, extra_bits, mask_first, new_space, is_over, is_valid_id, fill_bytes,
  from_uint64, new_id_from_string, zero_id,
}
use koorde_dht.Identifier.Space.Value.{
  IsSpace, value, value-lt, value-append_one, extra-lt, bits-add-extra, size_split,
  value-mask_first, length-mask_first, mask_first-bytes, pow-256, below_of_extra-zero,
}
use native.Mathlib.Nat.{
  pow-suc, mod-lt, div-add-mod', mod-mod_of_dvd, dvd-mul_right, div-eq_of_lt, zero-mul, zero-mod,
  mod-one, one-le-pow,
}

-- An identifier of the space: its bytes are bytes, as many as the space has, below 2^Bits.
pub record IsId (sp : Space) (id : Ident) : Type 0 where
  pub length_eq : length id ≡ sp.byte_len
  pub bytes : All IsByte id
  pub below : value id < 2 ^ sp.bits

new_space_checks :
    (b d s : ℤ) {sp : Space}
    → new_space b d s ≡ ok sp
    → (0 < to_nat b)
      × (2 ≤ to_nat d)
      × (bit_and (to_nat d) (to_nat d - 1) ≡ 0)
      × (0 < to_nat s)
      × (sp ≡ record {
        bits = to_nat b;
        byte_len = (to_nat b + 7) / 8;
        graph_grade = to_nat d;
        succ_list_size = to_nat s;
      })
unfolding new_space
new_space_checks b d s h = ground arith

log_pos_of_le : (n : ℕ) → 2 ≤ n → (k : ℕ) × (n ≡ 2 ^ k) → (k : ℕ) × (0 < k) × (n ≡ 2 ^ k)
log_pos_of_le n h (zero, p) = absurd (omega arith)
log_pos_of_le n h (suc k, p) = (suc k, omega arith, p)

-- A space that NewSpace returns is well formed: its size is positive, its identifiers have as many
-- bytes as Bits needs, its degree is 2^r for a positive r, and it keeps the three parameters.
pub new_space-IsSpace :
    (b d s : ℤ) {sp : Space}
    → new_space b d s ≡ ok sp
    → (r : ℕ) × IsSpace sp r
      × (sp.bits ≡ to_nat b)
      × (sp.graph_grade ≡ to_nat d)
      × (sp.succ_list_size ≡ to_nat s)
new_space-IsSpace b d s {sp} h =
    let (hb, hd, hand, hs, e) = new_space_checks b d s h in
    let (r, hr, p) = log_pos_of_le (to_nat d) hd (pow2_of_bit_and (to_nat d) (omega arith) hand) in
    (
      r,
      record {
        bits_pos = ground arith;
        byte_len_eq = ground arith;
        log_pos = hr;
        grade_eq = ground arith;
        list_pos = ground arith;
      },
      ground arith,
      ground arith,
      ground arith,
    )

high_zero :
    (b c m rest : ℕ) → 0 < c → rest < m → (not (b / c * c == 0) ≡ false) ↔ (b * m + rest < c * m)
high_zero b c m rest hc hr =
    ((λ z. small (quotient_zero z)), (λ lt. no_high (div-eq_of_lt (less lt))))
  where
    quotient_zero : not (b / c * c == 0) ≡ false → b < c
    quotient_zero z =
        let e : b / c * c ≡ 0 = ground arith in omega (arith, div-add-mod' b c, mod-lt b hc)

    small : b < c → b * m + rest < c * m
    small lt = grind arith

    less : b * m + rest < c * m → b < c
    less lt = grind arith

    no_high : b / c ≡ 0 → not (b / c * c == 0) ≡ false
    no_high e = rw (e, zero-mul) refl

module _ {sp : Space} {r : ℕ} (v : IsSpace sp r) where
  -- The unused bits of the first byte are zero exactly if the number is in the space.
  pub is_over_iff :
      (id : Ident)
      → All IsByte id
      → length id ≡ sp.byte_len
      → (is_over sp id ≡ false) ↔ (value id < 2 ^ sp.bits)
  unfolding is_over
  is_over_iff [] h e = absurd (omega (arith, v.byte_len_eq, v.bits_pos))
  is_over_iff (b ∷ bs) h e = elim (Bool-cases (ltb 0 (extra_bits sp))) [
    | inl more ↦
        rw (more, high_mask (extra_bits sp) b (extra-lt v) h.0, size_split v (length bs) e)
          (high_zero b (2 ^ (8 - extra_bits sp)) (256 ^ length bs) (value bs) (pow_pos _)
            (value-lt bs h.1))
    | inr done ↦ rw done (
      (λ _. below_of_extra-zero v (b ∷ bs) h e (ltb_false→le 0 (extra_bits sp) done)),
      (λ _. refl),
    )
  ]

  -- IsValidID accepts exactly the byte strings of the space's length whose number is below 2^Bits.
  pub is_valid_id_iff :
      (id : Ident)
      → All IsByte id
      → (is_valid_id sp id ≡ none) ↔ ((length id ≡ sp.byte_len) × (value id < 2 ^ sp.bits))
  unfolding is_valid_id
  is_valid_id_iff id h = (accepted, accepts)
    where
      fits : length id ≡ sp.byte_len → is_over sp id ≡ false → value id < 2 ^ sp.bits
      fits e = (is_over_iff id h e).0

      accepted : is_valid_id sp id ≡ none → (length id ≡ sp.byte_len) × (value id < 2 ^ sp.bits)
      accepted e = ground (arith, fits)

      accepts : (length id ≡ sp.byte_len) × (value id < 2 ^ sp.bits) → is_valid_id sp id ≡ none
      accepts (e, lt) = let z : is_over sp id ≡ false = (is_over_iff id h e).1 lt in ground arith

  pub IsId-is_valid_id : {id : Ident} → IsId sp id → is_valid_id sp id ≡ none
  IsId-is_valid_id {id} i = (is_valid_id_iff id i.bytes).1 (i.length_eq, i.below)

  pub is_valid_id-IsId : {id : Ident} → All IsByte id → is_valid_id sp id ≡ none → IsId sp id
  is_valid_id-IsId {id} h e =
      let (l, b) = (is_valid_id_iff id h).0 e in record { length_eq = l; bytes = h; below = b }

  -- Masking the first byte of the right number of bytes gives an identifier.
  pub mask_first-IsId :
      (id : Ident) → All IsByte id → length id ≡ sp.byte_len → IsId sp (mask_first sp id)
  mask_first-IsId id h e = record {
    length_eq = length-mask_first v id ∙ e;
    bytes = mask_first-bytes v id h;
    below = rw (value-mask_first v id h e) (mod-lt (value id) (pow_pos sp.bits));
  }

  -- 2^Bits divides the number of byte strings, so reducing by both is reducing by 2^Bits.
  pub mod-full : (x : ℕ) → x % 256 ^ sp.byte_len % 2 ^ sp.bits ≡ x % 2 ^ sp.bits
  mod-full x =
      mod-mod_of_dvd (2 ^ sp.bits) x (rw full (dvd-mul_right (2 ^ sp.bits) (2 ^ extra_bits sp)))
    where
      full : 256 ^ sp.byte_len ≡ 2 ^ sp.bits * 2 ^ extra_bits sp
      full =
          pow-256 sp.byte_len
          ∙ ap (λ (t : ℕ). 2 ^ t) (sym (bits-add-extra v))
          ∙ pow-add 2 sp.bits (extra_bits sp)

replicate-bytes : (n : ℕ) → All IsByte (replicate n 0)
replicate-bytes zero = tt
replicate-bytes (suc n) = (omega arith, replicate-bytes n)

value-replicate : (n : ℕ) → value (replicate n 0) ≡ 0
value-replicate zero = refl
value-replicate (suc n) = omega (arith, value-replicate n)

pub fill_bytes_shape :
    (n x : ℕ)
    → All IsByte (fill_bytes n x)
      × (length (fill_bytes n x) ≡ n)
      × (value (fill_bytes n x) ≡ x % 256 ^ n)
unfolding fill_bytes
fill_bytes_shape zero x = (tt, refl, sym (mod-one x))
fill_bytes_shape (suc n) x = elim (Bool-cases (ltb 0 x)) [
  | inl more ↦
      let (b, l, e) = fill_bytes_shape n (x / 256) in
      rw more (
        All-append IsByte (fill_bytes n (x / 256)) _ b (mod-lt x (omega arith), tt),
        rw length-append (omega arith),
        rw (value-append_one (fill_bytes n (x / 256)) (x % 256), e)
            (digits x (256 ^ n) (one-le-pow n 256 (omega arith))
              ∙ ap (λ (t : ℕ). x % t) (sym (pow-suc 256 n))),
      )
  | inr done ↦
      let z : x ≡ 0 = omega (arith, ltb_false→le 0 x done) in
      rw (done, z)
        (
          (omega arith, replicate-bytes n),
          ap suc (length-replicate n 0),
          omega (arith, value-replicate n, zero-mod (256 ^ suc n)),
        )
]
  where
    digits : (x m : ℕ) → 0 < m → x / 256 % m * 256 + x % 256 ≡ x % (m * 256)
    digits x m hm =
        sym (mod_unique x (m * 256) (x / 256 / m) _ (split x m) (fits x m (mod-lt (x / 256) hm)))
      where
        split : (x m : ℕ) → x ≡ x / 256 % m * 256 + x % 256 + x / 256 / m * (m * 256)
        split x m = omega (arith, ap (λ (t : ℕ). t * 256) (div-add-mod' (x / 256) m))

        fits : (x m : ℕ) → x / 256 % m < m → x / 256 % m * 256 + x % 256 < m * 256
        fits x m h = omega arith

module _ {sp : Space} {r : ℕ} (v : IsSpace sp r) where
  -- FromUint64 makes a valid identifier of x modulo 2^Bits.
  pub from_uint64_lem :
      (x : ℕ) → IsId sp (from_uint64 sp x) × (value (from_uint64 sp x) ≡ x % 2 ^ sp.bits)
  unfolding from_uint64
  from_uint64_lem x =
      let (b, l, e) = fill_bytes_shape sp.byte_len x in
      (
        mask_first-IsId v _ b l,
        value-mask_first v _ b l ∙ ap (λ (t : ℕ). t % 2 ^ sp.bits) e ∙ mod-full v x,
      )

  -- Zero is the identifier of the number 0.
  pub zero_id_lem : IsId sp (zero_id sp) × (value (zero_id sp) ≡ 0)
  unfolding zero_id
  zero_id_lem = (
    record {
      length_eq = length-replicate sp.byte_len 0;
      bytes = replicate-bytes sp.byte_len;
      below = omega (arith, value-replicate sp.byte_len, pow_pos sp.bits);
    },
    value-replicate sp.byte_len,
  )

  take-bytes : (n : ℕ) (bs : List ℕ) → All IsByte bs → All IsByte (take n bs)
  take-bytes zero bs h = tt
  take-bytes (suc n) [] h = tt
  take-bytes (suc n) (b ∷ bs) h = (h.0, take-bytes n bs h.1)

  -- If the digest has ByteLen bytes at least, NewIdFromString returns a valid identifier, whose
  -- number is that of the first ByteLen bytes modulo 2^Bits; on a shorter digest it panics.
  pub new_id_from_string_lem :
      (sha1 : String → List ℕ) (s : String)
      → All IsByte (sha1 s)
      → (sp.byte_len ≤ length (sha1 s)
          → (id : Ident) × (new_id_from_string sha1 sp s ≡ ok id)
            × IsId sp id
            × (value id ≡ value (take sp.byte_len (sha1 s)) % 2 ^ sp.bits))
        × (length (sha1 s) < sp.byte_len → new_id_from_string sha1 sp s ≡ panic)
  unfolding new_id_from_string
  new_id_from_string_lem sha1 s h = (
    (λ l.
        let b = take-bytes sp.byte_len (sha1 s) h in
        let e : length (take sp.byte_len (sha1 s)) ≡ sp.byte_len =
          omega (arith, length-take sp.byte_len (sha1 s)) in
        (
          mask_first sp (take sp.byte_len (sha1 s)),
          ground arith,
          mask_first-IsId v _ b e,
          value-mask_first v _ b e,
        )),
    (λ l. ground arith),
  )
