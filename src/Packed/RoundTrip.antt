-- ===== src/Packed/RoundTrip.antt =====
-- Packed and BCD numbers are read back: the decoders of dfdl-vm/src/vm/packed_decimal.rs after the
-- encoders.
use aitest.Prelude.{
  ℕ, suc, ◌+◌, ◌-◌, ◌*◌, ◌/◌, ◌%◌, ◌^◌, ◌<◌, ◌≡◌, refl, ap, ◌∙◌, arith, bit_and, Bool, false, not,
  ◌&&◌, List, [], ◌∷◌, ◌++◌, ltb, ◌==◌,
}
use aitest.Schema.{BinaryNumberCheckPolicy, strict, lax}
use aitest.Bits.{bit_and_mask, bit_or-above}
use aitest.Error.{ok, ◌>>=◌}
use aitest.Text.{contains}
use aitest.Text.Decimal.{padded, padded-snoc, fit_width-u64_to_string}
use aitest.Packed.{
  codes_for, sign_valid, order_bytes, bcd_to_digit_string, last_digit_string,
  packed_to_digit_string,
}
use aitest.Packed.Encode.{
  digits_to_u64, number_or, first_or, sign_nibble, sign_byte, encode_packed_bcd_magnitude,
  u64_to_bcd_bytes,
}
use aitest.Text.Parse.{parse_u64_text-padded}
use aitest.Packed.Pairs.{
  bytes_digits-bcd_bytes, pack_rounds-padded, chunk_bytes-padded, order_bytes_twice,
  split_last-snoc, digit_of_lem, digit_byte, bcd_bytes,
}

-- BCD bytes of any width and byte order are read back as the last digits of the `u64` that was
-- written.
pub bcd_to_digit_string-u64_to_bcd_bytes :
    (value width : ℕ) (le : Bool)
    → value < 2 ^ 64
    → (u64_to_bcd_bytes value width le >>= λ bytes. bcd_to_digit_string bytes le)
      ≡ ok (padded (width * 2) value)
unfolding u64_to_bcd_bytes bcd_to_digit_string
bcd_to_digit_string-u64_to_bcd_bytes value width le h =
    rw (fit_width-u64_to_string (width * 2) value h, chunk_bytes-padded, order_bytes_twice)
      (bytes_digits-bcd_bytes width value)

-- The sign codes of a property value, where the codes for positive numbers and for zero are not
-- codes for negative ones.
module _ (policy : BinaryNumberCheckPolicy) (p n u z : ℕ) (hp : p < 16) (hn : n < 16) (hz : z < 16)
    (p_apart : contains p ((codes_for policy p n u z).negative) ≡ false)
    (z_apart : contains z ((codes_for policy p n u z).negative) ≡ false) where
  sign_nibble-lt :
      (magnitude : ℕ) (negative : Bool)
      → sign_nibble magnitude negative (codes_for policy p n u z) < 16
  unfolding sign_nibble first_or codes_for
  sign_nibble-lt magnitude negative = elim policy [ strict ↦ ground arith | lax ↦ ground arith ]

  -- The sign that is written is told apart again, where zero has no sign.
  sign_valid-sign_nibble :
      (magnitude : ℕ) (negative : Bool)
      → sign_valid
          (codes_for policy p n u z)
          (sign_nibble magnitude negative (codes_for policy p n u z))
        ≡ ok (negative && not (magnitude == 0))
  unfolding sign_valid sign_nibble first_or codes_for contains
  sign_valid-sign_nibble magnitude negative = elim policy [
    | strict ↦ ground (arith, p_apart, z_apart)
    | lax ↦ ground (arith, p_apart, z_apart)
  ]

  sign_byte_lem :
      (d magnitude : ℕ) (negative : Bool) (rest : List ℕ)
      → d < 10
      → sign_byte (sign_nibble magnitude negative (codes_for policy p n u z)) ((b'0' + d) ∷ rest)
        ≡ ok (d * 16 + sign_nibble magnitude negative (codes_for policy p n u z))
  unfolding sign_byte
  sign_byte_lem d magnitude negative rest hd =
      let e : d * 2 ^ 4 % 2 ^ 8 ≡ d * 2 ^ 4 = digit_byte d hd in
      let small : ltb 9 d ≡ false = ground arith in
      rw (digit_of_lem, small, e)
        (ap ok (bit_or-above 4 d _ (omega (arith, sign_nibble-lt magnitude negative))))

  packed : ℕ → Bool → ℕ → List ℕ
  packed magnitude negative w =
      bcd_bytes w (magnitude / 10)
      ++ (magnitude % 10 * 16 + sign_nibble magnitude negative (codes_for policy p n u z)) ∷ []

  encode_packed :
      (magnitude : ℕ) (negative : Bool) (w : ℕ) (le : Bool)
      → magnitude < 2 ^ 64
      → encode_packed_bcd_magnitude magnitude negative (suc w) le (codes_for policy p n u z)
        ≡ ok (order_bytes (packed magnitude negative w) le)
  unfolding encode_packed_bcd_magnitude packed
  encode_packed magnitude negative w le h =
      let width : suc w * 2 - 1 ≡ suc (w * 2) = omega arith in
      rw
        (
          fit_width-u64_to_string (suc w * 2 - 1) magnitude h,
          width,
          padded-snoc (w * 2) magnitude,
          pack_rounds-padded,
          sign_byte_lem (magnitude % 10) magnitude negative [] (omega arith),
        )
        refl

  decode_packed :
      (magnitude : ℕ) (negative : Bool) (w : ℕ) (le : Bool)
      → packed_to_digit_string
          (order_bytes (packed magnitude negative w) le)
          le
          (codes_for policy p n u z)
        ≡ ok (negative && not (magnitude == 0), padded (suc w * 2 - 1) magnitude)
  unfolding packed_to_digit_string packed
  decode_packed magnitude negative w le =
      let width : suc w * 2 - 1 ≡ suc (w * 2) = omega arith in
      let sign = sign_nibble magnitude negative (codes_for policy p n u z) in
      let low : bit_and (magnitude % 10 * 16 + sign) 0x0f ≡ sign =
        bit_and_mask 4 (magnitude % 10 * 16 + sign)
        ∙ omega (arith, sign_nibble-lt magnitude negative) in
      let high : (magnitude % 10 * 16 + sign) / 2 ^ 4 ≡ magnitude % 10 =
        omega (arith, sign_nibble-lt magnitude negative) in
      let small : ltb 9 (magnitude % 10) ≡ false = ground arith in
      rw
        (
          width,
          padded-snoc (w * 2) magnitude,
          packed_to_digit_string,
          order_bytes_twice,
          split_last-snoc,
          low,
          sign_valid-sign_nibble,
          bytes_digits-bcd_bytes,
        )
        (unfold last_digit_string in rw (high, small) refl)

  -- Packed numbers of any width but 0 and either byte order are read back, from a `u64` magnitude: the
  -- sign unless the number is zero, and the last digits of the magnitude, one for each nibble but the
  -- sign's. The sign codes are those of a property value, nibbles where no code for a positive number
  -- or for zero is a negative one.
  pub packed_to_digit_string-encode_packed_bcd_magnitude :
      (magnitude : ℕ) (negative : Bool) (w : ℕ) (le : Bool)
      → magnitude < 2 ^ 64
      → (encode_packed_bcd_magnitude magnitude negative (suc w) le (codes_for policy p n u z)
          >>= λ bytes. packed_to_digit_string bytes le (codes_for policy p n u z))
        ≡ ok (negative && not (magnitude == 0), padded (suc w * 2 - 1) magnitude)
  packed_to_digit_string-encode_packed_bcd_magnitude magnitude negative w le h =
      rw (encode_packed magnitude negative w le h) (decode_packed magnitude negative w le)

-- The digits of a number that fits are parsed as the number.
pub digits_to_u64-padded :
    (k n : ℕ) → n % 10 ^ k < 2 ^ 64 → digits_to_u64 (padded k n) ≡ ok (n % 10 ^ k)
unfolding digits_to_u64 number_or
digits_to_u64-padded k n h = ap (number_or (padded k n)) (parse_u64_text-padded k n h)
